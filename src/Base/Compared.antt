-- ===== src/Base/Compared.antt =====
-- The result of a comparison, `COMPARE_t`: its sign is all that the source looks at.
pub data Compared : Type 0 where
  less : Compared
  equal : Compared
  greater : Compared

abbrev pub flip : Compared → Compared
flip less = greater
flip equal = equal
flip greater = less
