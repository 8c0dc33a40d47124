-- ===== src/NetBuffer/Load.antt =====
-- What the copies of `NetBuffer_Read` and `NetBuffer_Peek` put into the caller's array, and what
-- a read leaves behind.
use cant.Prelude.{
  ℕ, ◌+◌, ◌-◌, ◌≤◌, ◌≡◌, none, List, ◌++◌, arith, ltb, if◌then◌else◌, length, take, drop, get_elem?,
  memcpy, get_elem?-take, get_elem?-drop, get_elem?-append, get_elem?-memcpy, length-memcpy,
  length-take, length-drop, ext,
}
use cant.NetBuffer.{NetBuffer, load, consume}
use cant.NetBuffer.Inv.{IsValid, contents, at_index, length-contents, get_elem?-contents}

module _ {b : NetBuffer} {d : List ℕ} (v : IsValid b d) (n : ℕ) (there : n ≤ b.count) where
  -- A read moves the start of the stretch on by `n`, round the end of the array.
  pub consume-IsValid : IsValid (consume b n) d
  unfolding consume
  consume-IsValid = ground arith

  get_elem?-contents-consume :
      (i : ℕ)
      → get_elem? (contents (consume b n) d) i
        ≡ (if ltb (n + i) b.count then get_elem? d (at_index b (n + i)) else none)
  unfolding consume
  get_elem?-contents-consume i = ground (arith, get_elem?-contents consume-IsValid i)

  pub contents-consume : contents (consume b n) d ≡ drop n (contents b d)
  contents-consume = ext _ _ λ i. ground (
    arith,
    get_elem?-contents-consume i,
    get_elem?-drop n (contents b d) i,
    get_elem?-contents v (n + i),
  )

  module _ (out : List ℕ) (room : n ≤ length out) where
    get_elem?-load :
        (i : ℕ)
        → get_elem? (load b d out n) i
          ≡ (if ltb i n then get_elem? d (at_index b i) else get_elem? out i)
    unfolding load
    get_elem?-load i = ground (
      arith,
      length-drop b.read_index d,
      get_elem?-memcpy out 0 (drop b.read_index d) n i,
      get_elem?-memcpy out 0 (drop b.read_index d) (b.size - b.read_index) i,
      length-memcpy out 0 (drop b.read_index d) (b.size - b.read_index),
      get_elem?-memcpy (memcpy out 0 (drop b.read_index d) (b.size - b.read_index))
          (b.size - b.read_index) d (n - (b.size - b.read_index)) i,
      get_elem?-drop b.read_index d i,
    )

    pub load_lem : load b d out n ≡ take n (contents b d) ++ drop n out
    load_lem = ext _ _ λ i. ground (
      arith,
      get_elem?-load i,
      get_elem?-append (take n (contents b d)) (drop n out) i,
      length-take n (contents b d),
      length-contents v,
      get_elem?-take n (contents b d) i,
      get_elem?-contents v i,
      get_elem?-drop n out (i - n),
    )
