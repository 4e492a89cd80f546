-- ===== src/Streams/Tests.antt =====
-- A stream over a block of sixteen bytes.
use gray_core.Base.{ℕ, [], ◌∷◌, ◌≡◌, refl, arith, replicate}
use gray_core.Queue.Linear.{
  QueueRw, span_read, write_span_q, read_span_q, read_commit_check, read_commit_now, set_copy_span,
}
use gray_core.Queue.Static.{copy_qty}
use gray_core.Queue.Linear.Contents.{LinearInv}
use gray_core.Streams.{
  failed, error_io_incomplete, undefined_shift, write_span, write_size, write_size_loop, read_span,
  read_size, read_size_loop, stream_static,
}
use gray_core.Streams.Static.{static_laws}
use gray_core.Streams.Archive.{Reloaded, serialize-Reloaded}

abbrev fresh : QueueRw ℕ
fresh = record { block = replicate 16 0; read_index = 0; write_index = 0; auto_read_commit = 0 }

fresh-LinearInv : LinearInv fresh
fresh-LinearInv = record { normal = omega arith; fits = omega arith }

serialize-Reloaded_example :
    Reloaded stream_static static_laws 300 (7 ∷ 8 ∷ 9 ∷ []) (0 ∷ 0 ∷ 0 ∷ []) fresh
unfolding span_read static_laws
serialize-Reloaded_example =
    serialize-Reloaded stream_static static_laws 300 (7 ∷ 8 ∷ 9 ∷ []) (0 ∷ 0 ∷ 0 ∷ []) fresh
      (omega arith) refl fresh-LinearInv refl (omega arith)

size_of_three_hundred : span_read (write_size stream_static 300 fresh).1 ≡ 172 ∷ 2 ∷ []
unfolding write_size write_size_loop write_span write_span_q copy_qty span_read read_span_q
    read_commit_check read_commit_now set_copy_span read_size read_size_loop read_span
size_of_three_hundred = refl

size_of_nothing : (read_size stream_static fresh).0 ≡ (failed error_io_incomplete, 0)
unfolding write_size write_size_loop write_span write_span_q copy_qty span_read read_span_q
    read_commit_check read_commit_now set_copy_span read_size read_size_loop read_span
size_of_nothing = refl

marks_without_end :
    (read_size stream_static (write_span stream_static (replicate 12 0x80) fresh).1).0.0
    ≡ failed undefined_shift
unfolding write_size write_size_loop write_span write_span_q copy_qty span_read read_span_q
    read_commit_check read_commit_now set_copy_span read_size read_size_loop read_span
marks_without_end = refl
