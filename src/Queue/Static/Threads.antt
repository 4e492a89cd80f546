-- ===== src/Queue/Static/Threads.antt =====
-- One thread that calls `Write1` and one that calls `Read1` on the same `cQueueStatic`, cut into
-- the loads and stores of the source, in any order (include/cQueue.h calls both thread safe
-- against one another). Memory is taken to be sequentially consistent. `sent` and `got` are what
-- the calls have published and returned so far; the program does not keep them.
use gray_core.Base.{
  ℕ, ◌+◌, ◌-◌, ◌≡◌, ◌≢◌, ◌∙◌, sym, ap, ap₂, refl, true, false, List, [], ◌∷◌, ◌++◌, get_or,
  get_or-set_ne, ◌<◌, arith,
}
use mathlib.Core.List.{append_assoc}
use mathlib.Core.Path.{subst}
use gray_core.Queue.Static.{QueueStatic, wrap_index, is_empty, is_full, read_qty}
use gray_core.Queue.Static.Inv.{IsValid, contents, read_qty-lt}
use gray_core.Queue.Static.Single.{
  is_full_lem, is_empty_lem, store, publish, skipped, store-IsValid, publish-IsValid,
  skipped-IsValid, contents-store, contents-publish, contents-cons, stored_there, read_qty-publish,
  read_qty-skipped,
}

-- Where the two threads are. The writer has found room for an element, and then has stored it;
-- the reader has copied an element out.
pub data Writer {ℓ} (A : Type ℓ) : Type ℓ where
  waiting : Writer A
  checked stored : A → Writer A

pub data Reader {ℓ} (A : Type ℓ) : Type ℓ where
  ready : Reader A
  loaded : A → Reader A

pub record Shared {ℓ} (A : Type ℓ) : Type ℓ where
  pub queue : QueueStatic A
  pub writer : Writer A
  pub reader : Reader A
  pub sent : List A
  pub got : List A

module _ {ℓ} {A : Type ℓ} (qty : ℕ) (junk : A) where
  pub data QueueStep : Shared A → Shared A → Type ℓ where
    -- `if (iWriteNext == _nReadIndex) return false;`
    write_full : (s : Shared A) → s.writer ≡ waiting → is_full qty s.queue ≡ true → QueueStep s s
    write_check :
        (s : Shared A) (x : A)
        → s.writer ≡ waiting
        → is_full qty s.queue ≡ false
        → QueueStep s (record s { writer = checked x })
    -- `_Data[iWrite] = val;`
    write_store :
        (s : Shared A) (x : A)
        → s.writer ≡ checked x
        → QueueStep s (record s { queue = store s.queue x; writer = stored x })
    -- `_nWriteIndex = iWriteNext; return true;`
    write_publish :
        (s : Shared A) (x : A)
        → s.writer ≡ stored x
        → QueueStep s
            (record s { queue = publish qty s.queue; writer = waiting; sent = s.sent ++ (x ∷ []) })
    -- `val = _Data[iRead];`
    read_load :
        (s : Shared A)
        → s.reader ≡ ready
        → is_empty s.queue ≡ false
        → QueueStep s
            (record s { reader = loaded (get_or s.queue.storage s.queue.read_index junk) })
    -- `_nReadIndex = iReadNext; return val;`
    read_publish :
        (s : Shared A) (x : A)
        → s.reader ≡ loaded x
        → QueueStep s (record s {
          queue = record s.queue { read_index = wrap_index qty (s.queue.read_index + 1) };
          reader = ready;
          got = s.got ++ (x ∷ []);
        })

  pub data Reach (s : Shared A) : Shared A → Type ℓ where
    here : Reach s s
    next : {t u : Shared A} → Reach s t → QueueStep t u → Reach s u

  abbrev WriterOk : QueueStatic A → Writer A → Type ℓ
  WriterOk q waiting = Unit
  WriterOk q (checked x) = (read_qty qty q ≢ qty - 1) × Unit {ℓ}
  WriterOk q (stored x) = (read_qty qty q ≢ qty - 1) × (get_or q.storage q.write_index junk ≡ x)

  abbrev ReaderOk : QueueStatic A → Reader A → Type ℓ
  ReaderOk q ready = Unit
  ReaderOk q (loaded x) = (is_empty q ≡ false) × (get_or q.storage q.read_index junk ≡ x)

  -- What holds between any two steps.
  record Inv (s : Shared A) : Type ℓ where
    valid : IsValid qty s.queue
    history : s.got ++ contents qty junk s.queue ≡ s.sent
    writer_ok : WriterOk s.queue s.writer
    reader_ok : ReaderOk s.queue s.reader

  -- A step of one thread keeps what the other relies on.
  module _ {q : QueueStatic A} (v : IsValid qty q) where
    ReaderOk-store : (x : A) (r : Reader A) → ReaderOk q r → ReaderOk (store q x) r
    ReaderOk-store x ready h = h
    ReaderOk-store x (loaded y) (more, there) =
        (more, get_or-set_ne q.storage q.write_index q.read_index x junk (ground arith) ∙ there)

    ReaderOk-publish :
        read_qty qty q ≢ qty - 1 → (r : Reader A) → ReaderOk q r → ReaderOk (publish qty q) r
    ReaderOk-publish room ready h = h
    ReaderOk-publish room (loaded y) (more, there) = (
      ground (
        arith,
        is_empty_lem v,
        is_empty_lem (publish-IsValid junk v),
        read_qty-publish junk v room,
      ),
      there,
    )

    room-skipped :
        is_empty q ≡ false → read_qty qty q ≢ qty - 1 → read_qty qty (skipped junk v 1) ≢ qty - 1
    room-skipped more room =
        ground (arith, is_empty_lem v, read_qty-skipped junk v 1, read_qty-lt v)

    WriterOk-skipped :
        is_empty q ≡ false → (w : Writer A) → WriterOk q w → WriterOk (skipped junk v 1) w
    WriterOk-skipped more waiting h = h
    WriterOk-skipped more (checked x) (room, _) = (room-skipped more room, tt)
    WriterOk-skipped more (stored x) (room, there) = (room-skipped more room, there)

    history-publish :
        (got sent : List A) (x : A)
        → got ++ contents qty junk q ≡ sent
        → read_qty qty q ≢ qty - 1
        → get_or q.storage q.write_index junk ≡ x
        → got ++ contents qty junk (publish qty q) ≡ sent ++ (x ∷ [])
    history-publish got sent x h room there =
        ap (λ l. got ++ l) (contents-publish junk v room)
        ∙ sym (append_assoc got (contents qty junk q) _)
        ∙ ap₂ (λ l y. l ++ (y ∷ [])) h there

    history-skipped :
        (got sent : List A) (x : A)
        → got ++ contents qty junk q ≡ sent
        → is_empty q ≡ false
        → get_or q.storage q.read_index junk ≡ x
        → (got ++ (x ∷ [])) ++ contents qty junk (skipped junk v 1) ≡ sent
    history-skipped got sent x h more there =
        append_assoc got (x ∷ []) _
        ∙ ap (λ y. got ++ (y ∷ contents qty junk (skipped junk v 1))) (sym there)
        ∙ ap (λ l. got ++ l) (sym (contents-cons junk v more))
        ∙ h

  QueueStep-Inv : {s t : Shared A} → QueueStep s t → Inv s → Inv t
  QueueStep-Inv (write_full s w f) inv = inv
  QueueStep-Inv (write_check s x w f) inv = record {
    valid = inv.valid;
    history = inv.history;
    writer_ok = (ground (arith, is_full_lem inv.valid), tt);
    reader_ok = inv.reader_ok;
  }
  QueueStep-Inv (write_store s x w) inv =
      let ok : WriterOk s.queue (checked x) = subst (WriterOk s.queue) w inv.writer_ok in
      record {
        valid = store-IsValid junk inv.valid x;
        history = ap (λ l. s.got ++ l) (contents-store junk inv.valid x) ∙ inv.history;
        writer_ok = (unfold read_qty in ok.0, stored_there junk inv.valid x);
        reader_ok = ReaderOk-store inv.valid x s.reader inv.reader_ok;
      }
  QueueStep-Inv (write_publish s x w) inv =
      let ok : WriterOk s.queue (stored x) = subst (WriterOk s.queue) w inv.writer_ok in
      record {
        valid = publish-IsValid junk inv.valid;
        history = history-publish inv.valid s.got s.sent x inv.history ok.0 ok.1;
        writer_ok = tt;
        reader_ok = ReaderOk-publish inv.valid ok.0 s.reader inv.reader_ok;
      }
  QueueStep-Inv (read_load s r e) inv = record {
    valid = inv.valid;
    history = inv.history;
    writer_ok = inv.writer_ok;
    reader_ok = (e, refl);
  }
  QueueStep-Inv (read_publish s x r) inv =
      let ok : ReaderOk s.queue (loaded x) = subst (ReaderOk s.queue) r inv.reader_ok in
      record {
        valid = skipped-IsValid junk inv.valid 1;
        history = history-skipped inv.valid s.got s.sent x inv.history ok.0 ok.1;
        writer_ok = WriterOk-skipped inv.valid ok.0 s.writer inv.writer_ok;
        reader_ok = tt;
      }

  Reach-Inv : {s t : Shared A} → Reach s t → Inv s → Inv t
  Reach-Inv here inv = inv
  Reach-Inv (next r st) inv = QueueStep-Inv st (Reach-Inv r inv)

  abbrev pub start : QueueStatic A → Shared A
  start q = record {
    queue = q;
    writer = waiting;
    reader = ready;
    sent = contents qty junk q;
    got = [];
  }

  -- In every interleaving of one writer and one reader that starts between calls on a
  -- well-formed ring, what has been read, followed by what is in the ring, is what was in
  -- the ring at the start followed by what has been written since, in order; the ring stays
  -- well formed and never holds `qty` elements.
  pub interleaving_fifo :
      (q : QueueStatic A) {t : Shared A}
      → IsValid qty q
      → Reach (start q) t
      → (t.got ++ contents qty junk t.queue ≡ t.sent)
        × IsValid qty t.queue
        × (read_qty qty t.queue < qty)
  interleaving_fifo q v r =
      let inv =
        Reach-Inv r (record { valid = v; history = refl; writer_ok = tt; reader_ok = tt }) in
      (inv.history, inv.valid, read_qty-lt inv.valid)
