-- ===== src/NetBuffer/Inv.antt =====
-- The representation invariant of `NetBuffer` and the bytes that a buffer holds.
use cant.Prelude.{
  ℕ, ◌+◌, ◌-◌, ◌^◌, ◌≤◌, ◌<◌, ◌≡◌, ◌⊎◌, none, some, List, ◌++◌, arith, ltb, if◌then◌else◌, length,
  take, drop, get_elem?, get_elem?-take, get_elem?-drop, get_elem?-append, length-take, length-drop,
  length-append,
}
use cant.NetBuffer.{NetBuffer}

-- `b` owns the array `d`, and its indices and count describe a stretch of it that may go round.
pub record IsValid (b : NetBuffer) (d : List ℕ) : Type 0 where
  pub held : b.bytes ≡ some d
  pub array : length d ≡ b.size
  pub size_pos : 0 < b.size
  pub size_word : b.size < 2 ^ 32
  pub read_in : b.read_index < b.size
  pub write_in : b.write_index < b.size
  pub count_in : b.count ≤ b.size
  pub write_at :
      (b.write_index ≡ b.read_index + b.count) ⊎ (b.write_index + b.size ≡ b.read_index + b.count)

-- The bytes that are waiting, oldest first.
abbrev pub contents : NetBuffer → List ℕ → List ℕ
contents b d = take b.count (drop b.read_index d ++ take b.read_index d)

-- The array index of the `i`-th byte after `read_index`.
abbrev pub at_index : NetBuffer → ℕ → ℕ
at_index b i = if ltb (b.read_index + i) b.size then b.read_index + i else b.read_index + i - b.size

module _ {b : NetBuffer} {d : List ℕ} (v : IsValid b d) where
  get_elem?-rotated :
      (i : ℕ)
      → i < b.size
      → get_elem? (drop b.read_index d ++ take b.read_index d) i ≡ get_elem? d (at_index b i)
  get_elem?-rotated i h = ground (
    arith,
    get_elem?-append (drop b.read_index d) (take b.read_index d) i,
    length-drop b.read_index d,
    get_elem?-drop b.read_index d i,
    get_elem?-take b.read_index d (i - length (drop b.read_index d)),
  )

  pub get_elem?-contents :
      (i : ℕ)
      → get_elem? (contents b d) i ≡ (if ltb i b.count then get_elem? d (at_index b i) else none)
  get_elem?-contents i = ground (
    arith,
    get_elem?-take b.count (drop b.read_index d ++ take b.read_index d) i,
    get_elem?-rotated i,
  )

  pub length-contents : length (contents b d) ≡ b.count
  length-contents = omega (
    arith,
    length-take b.count (drop b.read_index d ++ take b.read_index d),
    length-append (drop b.read_index d) (take b.read_index d),
    length-drop b.read_index d,
    length-take b.read_index d,
  )
