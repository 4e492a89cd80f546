-- ===== src/Streams/Archive.antt =====
-- cArchive: what is stored can be loaded.
use gray_core.Base.{
  ℕ, ◌+◌, ◌≤◌, ◌<◌, ◌≡◌, ◌∙◌, ap, ap₂, true, false, List, [], ◌++◌, length, take, drop, arith,
  take-all, drop-all,
}
use gray_core.Streams.{Stream, HResult, success, serialize, serialize_size}
use gray_core.Streams.Laws.{StreamLaws, write_span-held, read_span-held}
use gray_core.Streams.Sizes.{packed, write_size-Sized, read_size-Unsized}

module _ {S : Type 0} (stream : Stream S) (laws : StreamLaws stream) where
  open laws use {InOrder, held, room}

  -- What was loaded into a target of the length of the bytes, after a size and the bytes were stored.
  pub record Reloaded (n : ℕ) (bytes target : List ℕ) (s : S) : Type 0 where
    pub sized : S
    pub filled : S
    pub drained : S
    pub read : S
    pub written : ℕ
    pub given : ℕ
    pub stores_size : serialize_size stream true n s ≡ ((success written, n), sized)
    pub stores : serialize stream true bytes sized ≡ ((success (length bytes), bytes), filled)
    pub loads_size : serialize_size stream false 0 filled ≡ ((success given, n), drained)
    pub loads : serialize stream false target drained ≡ ((success (length bytes), bytes), read)
    pub empty : held read ≡ []

  -- In any class of streams that keeps the laws, SerializeSize of a 64-bit size and Serialize of a
  -- block succeed on an empty stream that has room for the block and ten bytes; loading a size and
  -- then a target of the block's length gives back both and leaves the stream empty.
  pub serialize-Reloaded :
      (n : ℕ) (bytes target : List ℕ) (s : S)
      → n < 0x1_0000_0000_0000_0000
      → length target ≡ length bytes
      → InOrder s
      → held s ≡ []
      → length bytes + 10 ≤ room s
      → Reloaded n bytes target s
  unfolding serialize serialize_size
  serialize-Reloaded n bytes target s below same good none fits =
      let sized = write_size-Sized stream laws n s below good (omega (arith, fits)) in
      let (filled, e, good', h, r) =
        write_span-held stream laws bytes sized.after sized.in_order
          (omega (arith, fits, sized.spare)) in
      let holds = h ∙ ap (λ l. l ++ bytes) (sized.holds ∙ ap (λ l. l ++ packed 9 n) none) in
      let drained = read_size-Unsized stream laws n bytes filled below good' holds in
      let (read, e', good'', h') =
        read_span-held stream laws (length target) drained.after drained.in_order
          (omega (arith, same, ap length drained.holds)) in
      record {
        sized = sized.after;
        filled = filled;
        drained = drained.after;
        read = read;
        written = sized.code;
        given = drained.code;
        stores_size = ap (λ (r : HResult × S). ((r.0, n), r.1)) sized.returned;
        stores = ap (λ (r : HResult × S). ((r.0, bytes), r.1)) e;
        loads_size = drained.returned;
        loads =
            e'
            ∙ ap₂ (λ k l. ((success k, l), read)) same
                (ap (take (length target)) drained.holds
                  ∙ take-all (length target) bytes (omega (arith, same)));
        empty =
            h'
            ∙ ap (drop (length target)) drained.holds
            ∙ drop-all (length target) bytes (omega (arith, same));
      }
