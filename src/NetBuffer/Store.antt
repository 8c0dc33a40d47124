-- ===== src/NetBuffer/Store.antt =====
-- What the copies of `NetBuffer_Write` do to the array and to the waiting bytes.
use cant.Prelude.{
  ℕ, ◌+◌, ◌-◌, ◌≤◌, ◌<◌, ◌≡◌, none, List, ◌++◌, arith, ltb, leb, if◌then◌else◌, length, take, drop,
  get_elem?, memcpy, get_elem?_past, get_elem?-take, get_elem?-drop, get_elem?-append,
  get_elem?-memcpy, length-memcpy, length-drop, ext, min,
}
use cant.NetBuffer.{NetBuffer, store, stored}
use cant.NetBuffer.Inv.{IsValid, contents, at_index, length-contents, get_elem?-contents}

module _ {b : NetBuffer} {d : List ℕ} (v : IsValid b d) (src : List ℕ) (n : ℕ)
    (fits : b.count + n ≤ b.size) (given : n ≤ length src) where
  length-stored : length (stored b d src n) ≡ b.size
  unfolding stored
  length-stored = ground (
    arith,
    length-memcpy d b.write_index src n,
    length-memcpy d b.write_index src (b.size - b.write_index),
    length-memcpy (memcpy d b.write_index src (b.size - b.write_index)) 0
        (drop (b.size - b.write_index) src) (n - (b.size - b.write_index)),
    length-drop (b.size - b.write_index) src,
  )

  pub store-IsValid : IsValid (store b d src n) (stored b d src n)
  unfolding store
  store-IsValid = ground (arith, length-stored)

  get_elem?-stored :
      (i : ℕ)
      → get_elem? (stored b d src n) i ≡ (
          if ltb i b.write_index
          then if leb n (b.size - b.write_index)
            then get_elem? d i
            else if ltb i (n - (b.size - b.write_index))
            then get_elem? src (i + (b.size - b.write_index))
            else get_elem? d i
          else if ltb i (min b.size (b.write_index + n))
          then get_elem? src (i - b.write_index)
          else get_elem? d i)
  unfolding stored
  get_elem?-stored i = ground (
    arith,
    get_elem?-memcpy d b.write_index src n i,
    get_elem?-memcpy d b.write_index src (b.size - b.write_index) i,
    length-memcpy d b.write_index src (b.size - b.write_index),
    get_elem?-memcpy (memcpy d b.write_index src (b.size - b.write_index)) 0
        (drop (b.size - b.write_index) src) (n - (b.size - b.write_index)) i,
    length-drop (b.size - b.write_index) src,
    get_elem?-drop (b.size - b.write_index) src i,
    get_elem?_past d i,
  )

  -- A store keeps the waiting bytes and puts the new ones behind them.
  get_elem?-stored-at_index :
      (i : ℕ)
      → i < b.count + n
      → get_elem? (stored b d src n) (at_index b i)
        ≡ (if ltb i b.count then get_elem? d (at_index b i) else get_elem? src (i - b.count))
  get_elem?-stored-at_index i h = ground (arith, get_elem?-stored (at_index b i))

  get_elem?-contents-store :
      (i : ℕ)
      → get_elem? (contents (store b d src n) (stored b d src n)) i
        ≡ (if ltb i (b.count + n) then get_elem? (stored b d src n) (at_index b i) else none)
  unfolding store
  get_elem?-contents-store i = ground (arith, get_elem?-contents store-IsValid i)

  get_elem?-append_contents :
      (i : ℕ)
      → get_elem? (contents b d ++ take n src) i ≡ (
          if ltb i b.count
          then get_elem? d (at_index b i)
          else if ltb i (b.count + n)
          then get_elem? src (i - b.count)
          else none)
  get_elem?-append_contents i = ground (
    arith,
    get_elem?-append (contents b d) (take n src) i,
    get_elem?-take n src (i - length (contents b d)),
    length-contents v,
    get_elem?-contents v i,
  )

  pub contents-store : contents (store b d src n) (stored b d src n) ≡ contents b d ++ take n src
  contents-store = ext _ _ λ i.
      ground (
        arith,
        get_elem?-contents-store i,
        get_elem?-append_contents i,
        get_elem?-stored-at_index i,
      )
