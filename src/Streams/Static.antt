-- ===== src/Streams/Static.antt =====
-- cStreamStatic is a stream whose bytes come in order.
use gray_core.Base.{
  ℕ, ◌+◌, ◌-◌, ◌≤◌, ◌≡◌, ◌∙◌, refl, ap, ap₂, false, List, ◌++◌, length, take, min, arith, take-all,
}
use gray_core.Queue.Linear.{QueueRw, span_read, write_space_qty, write_span_q, read_span_q}
use gray_core.Queue.Linear.Contents.{LinearInv}
use gray_core.Queue.Linear.Writing.{capacity, write_span_q_refines}
use gray_core.Queue.Linear.Reading.{read_span_q_refines}
use gray_core.Queue.Fifo.{put_many, get_many}
use gray_core.Queue.Static.Copy.{length-copy_qty}
use gray_core.Streams.{success, stream_static}
use gray_core.Streams.Laws.{StreamLaws}

pub least : (n m : ℕ) → n ≤ m → min n m ≡ n
least n m h = omega (arith, h)

pub written :
    (bytes : List ℕ) (q : QueueRw ℕ)
    → LinearInv q
    → length bytes ≤ write_space_qty q
    → put_many (capacity q) (span_read q) bytes ≡ (length bytes, span_read q ++ bytes)
unfolding put_many
written bytes q inv fits =
    ap₂ (λ k l. (k, span_read q ++ l)) (omega (arith, fits))
      (take-all (capacity q - length (span_read q)) bytes (omega (arith, fits)))

pub space :
    (bytes : List ℕ) (q : QueueRw ℕ)
    → write_space_qty q ≤ write_space_qty (write_span_q q bytes false).1 + length bytes
unfolding write_span_q
space bytes q = omega (
  arith,
  length-copy_qty q.block q.write_index (take (min (write_space_qty q) (length bytes)) bytes),
)

unfoldable pub static_laws : StreamLaws stream_static
unfolding get_many
static_laws = record {
  InOrder = LinearInv;
  held = span_read;
  room = write_space_qty;
  writes = λ bytes q inv fits.
      let result = write_span_q q bytes false in
      let w = write_span_q_refines q bytes inv in
      let e = w.holds ∙ written bytes q inv fits in
      (
        result.1,
        ap (λ (r : ℕ × List ℕ). (success r.0, result.1)) e,
        w.inv,
        ap (λ (r : ℕ × List ℕ). r.1) e,
        space bytes q,
      );
  reads = λ size q inv enough.
      let result = read_span_q q (record { size = size; null = false }) in
      let r = read_span_q_refines q (record { size = size; null = false }) inv in
      (
        result.1,
        ap₂ (λ k l. ((success k, l), result.1)) (r.count ∙ least size (length (span_read q)) enough)
            (ap (λ (p : List ℕ × List ℕ). p.0) (r.gives refl)),
        r.inv,
        r.skips,
      );
}
