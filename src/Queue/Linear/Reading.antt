-- ===== src/Queue/Linear/Reading.antt =====
-- Reads and seeks of a linear queue. What a read gives does not depend on when reads are committed.
use gray_core.Base.{
  ℕ, ◌≤◌, ◌<◌, ◌≡◌, ◌∙◌, refl, sym, ap, min, false, List, length, take, drop, arith, tests, ltb,
  leb, Bool-cases, take-min, le→leb, lt→leb_false, drop-all, ap₂, inl, inr, if◌then◌else◌,
}
use gray_core.Base.Int.{ℤ, pos, negsuc, pos_part}
use gray_core.Queue.Fifo.{get_many}
use gray_core.Base.Slices.{drop-take}
use gray_core.Queue.Linear.{
  QueueRw, Target, SeekOrigin, SeekResult, position, error_empty, error_database_full, span_read,
  advance_read, set_copy_span, read_span_q, read_commit_check, seek_target, seek_index, seek_q,
  seek_within,
}
use gray_core.Queue.Linear.Contents.{
  LinearInv, Committed, length-span_read, span_read-advance_read, read_commit_check-Committed,
}

-- The HRESULT of a seek to a place.
abbrev pub seek_report : ℕ → ℤ → SeekResult
seek_report write (negsuc n) = error_empty
seek_report write (pos n) = if leb n write then position n else error_database_full

module _ {ℓ} {A : Type ℓ} where
  -- The outcome of ReadSpanQ.
  pub record Reads (q : QueueRw A) (ret : Target) (result : (ℕ × List A) × QueueRw A) : Type ℓ where
    pub inv : LinearInv result.1
    pub gives :
        ret.null ≡ false → (result.0.1, span_read result.1) ≡ get_many ret.size (span_read q)
    pub skips : span_read result.1 ≡ drop ret.size (span_read q)
    pub count : result.0.0 ≡ min ret.size (length (span_read q))
    pub alloc : length result.1.block ≡ length q.block

  drop-min : (n : ℕ) (xs : List A) → drop (min n (length xs)) xs ≡ drop n xs
  drop-min n xs = elim (Bool-cases (ltb n (length xs))) [
    | inl inside ↦ ap (λ k. drop k xs) (least (omega (tests, inside)))
    | inr past ↦
        drop-all (min n (length xs)) xs (omega (tests, past))
        ∙ sym (drop-all n xs (omega (tests, past)))
  ]
    where
      least : n ≤ length xs → min n (length xs) ≡ n
      least h = omega arith

  -- ReadSpanQ gives the elements in order and leaves the rest, whether or not it commits the read.
  pub read_span_q_refines :
      (q : QueueRw A) (ret : Target) → LinearInv q → Reads q ret (read_span_q q ret)
  unfolding read_span_q set_copy_span get_many
  read_span_q_refines q ret inv = record {
    inv = committed.inv;
    gives = λ shown.
        ap₂ (λ (given left : List A). (given, left)) (rw shown (take-min ret.size (span_read q)))
          rest;
    skips = rest;
    count = refl;
    alloc = committed.alloc;
  }
    where
      qty : ℕ
      qty = min ret.size (length (span_read q))

      committed : Committed (advance_read q qty) (read_commit_check (advance_read q qty))
      committed =
          read_commit_check-Committed (advance_read q qty)
            record { normal = omega (arith, length-span_read q inv, inv.normal); fits = inv.fits }

      rest : span_read (read_commit_check (advance_read q qty)) ≡ drop ret.size (span_read q)
      rest = committed.holds ∙ span_read-advance_read q qty ∙ drop-min ret.size (span_read q)

  -- Where a seek ends: what is asked for, held to what was written.
  abbrev pub place : QueueRw A → ℤ → SeekOrigin → ℕ
  place q offset origin = min (pos_part (seek_target q offset origin)) q.write_index

  pub seek_index-place :
      (q : QueueRw A) (offset : ℤ) (origin : SeekOrigin)
      → seek_index q offset origin ≡ (
        seek_report q.write_index (seek_target q offset origin),
        record q { read_index = place q offset origin },
      )
  unfolding seek_index
  seek_index-place q offset origin = within (seek_target q offset origin)
    where
      within :
          (target : ℤ)
          → seek_within q target ≡ (
            seek_report q.write_index target,
            record q { read_index = min (pos_part target) q.write_index },
          )
      within (negsuc n) = ground arith
      within (pos n) = elim (Bool-cases (ltb q.write_index n)) [
        | inl past ↦
            rw
              (
                seek_within,
                past,
                lt→leb_false n q.write_index (omega (tests, past)),
                at_end (omega (tests, past)),
              )
              refl
        | inr inside ↦
            rw
              (
                seek_within,
                inside,
                le→leb n q.write_index (omega (tests, inside)),
                here (omega (tests, inside)),
              )
              refl
      ]
        where
          at_end : q.write_index < n → min n q.write_index ≡ q.write_index
          at_end h = omega arith

          here : n ≤ q.write_index → min n q.write_index ≡ n
          here h = omega arith

  -- The outcome of cQueueRW::SeekQ, whose result is the read index.
  pub record Seeks (q : QueueRw A) (start : ℕ) (result : ℕ × QueueRw A) : Type ℓ where
    pub inv : LinearInv result.1
    pub unread : span_read result.1 ≡ drop start (take q.write_index q.block)
    pub returned : result.0 ≡ result.1.read_index
    pub bounded : result.0 ≤ start

  -- A seek, to before the start or past the end too, leaves the read index within what was written.
  pub seek_q_bounds :
      (q : QueueRw A) (offset : ℤ) (origin : SeekOrigin)
      → LinearInv q
      → Seeks q (place q offset origin) (seek_q q offset origin)
  unfolding seek_q span_read
  seek_q_bounds q offset origin inv =
      rw (seek_q, seek_index-place q offset origin)
        record {
          inv = committed.inv;
          unread = committed.holds ∙ sym (drop-take (place q offset origin) q.write_index q.block);
          returned = refl;
          bounded = committed.not_later;
        }
    where
      sought : QueueRw A
      sought = record q { read_index = place q offset origin }

      committed : Committed sought (read_commit_check sought)
      committed =
          read_commit_check-Committed sought record { normal = omega arith; fits = inv.fits }
