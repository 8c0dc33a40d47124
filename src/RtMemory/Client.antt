-- ===== src/RtMemory/Client.antt =====
-- A client of the pool that gives back only blocks that it holds.
use cant.Prelude.{
  ℕ, zero, suc, ◌+◌, ◌-◌, ◌*◌, ◌<◌, ◌≤◌, ◌≡◌, refl, true, false, ◌||◌, Option, none, some, List, [],
  ◌∷◌, ◌++◌, ltb, leb, ◌==◌, if◌then◌else◌, take, set, get_or, get_elem?, remove, length,
  length-set, arith, ap, sym, ◌∙◌, Bool-cases, inl, inr, count_if, All, All-append, All-get_elem?,
  All-split, All-remove,
}
use mathlib.Core.Path.{subst}
use cant.Prelude.Table.Arrays.{take-set_end}
use cant.RtMemory.{RtMemPool, u64, fill, alloc, free}

-- The pool and the blocks that the client holds.
abbrev pub State : Type 0
State = RtMemPool × List ℕ

-- What the client does: it asks for a block, or gives back the one at a place of its list.
pub data Move : Type 0 where
  take_block : Move
  give_back : (k : ℕ) → Move

abbrev pub taken : List ℕ → RtMemPool × Option ℕ → State
taken held (p, none) = (p, held)
taken held (p, some block) = (p, block ∷ held)

abbrev pub given : RtMemPool → List ℕ → ℕ → Option ℕ → State
given p held k none = (p, held)
given p held k (some block) = (free p block, remove held k)

unfoldable pub move : State → Move → State
move (p, held) take_block = taken held (alloc p)
move (p, held) (give_back k) = given p held k (get_elem? held k)

unfoldable pub run : State → List Move → State
run s [] = s
run s (x ∷ xs) = run (move s x) xs

-- How often a block stands in a list.
abbrev pub times : ℕ → List ℕ → ℕ
times b xs = count_if (λ y. y == b) xs

-- The blocks of the pool.
abbrev pub blocks : RtMemPool → List ℕ
blocks p = fill p.memory p.block_size 0 p.block_count

abbrev pub free_list : RtMemPool → List ℕ
free_list p = take p.free_count p.free_blocks

-- A block of the pool, as `rt_mempool_free` tests it.
abbrev pub Inside : RtMemPool → ℕ → Type 0
Inside p b = (0 < b) × (p.memory ≤ b) × (b < p.memory + u64 (p.block_count * p.block_size))

-- The free blocks and those that the client holds are together the blocks of the pool.
pub record IsShared (s : State) : Type 0 where
  pub sized : length s.0.free_blocks ≡ s.0.block_count
  pub counted : s.0.free_count + length s.1 ≡ s.0.block_count
  pub inside_free : All (Inside s.0) (free_list s.0)
  pub inside_held : All (Inside s.0) s.1
  pub shared : (b : ℕ) → times b (free_list s.0) + times b s.1 ≡ times b (blocks s.0)

times-append : (b : ℕ) (xs ys : List ℕ) → times b (xs ++ ys) ≡ times b xs + times b ys
times-append b [] ys = omega arith
times-append b (x ∷ xs) ys = ground (arith, times-append b xs ys)

times-remove :
    (b k c : ℕ) (xs : List ℕ)
    → get_elem? xs k ≡ some c
    → times b xs ≡ times b (remove xs k) + (if c == b then 1 else 0)
times-remove b k c [] e = ground (arith, e)
times-remove b zero c (x ∷ xs) e = ground (arith, e)
times-remove b (suc k) c (x ∷ xs) e = ground (arith, times-remove b k c xs e)

length-remove :
    (k c : ℕ) (xs : List ℕ) → get_elem? xs k ≡ some c → length xs ≡ length (remove xs k) + 1
length-remove k c [] e = ground (arith, e)
length-remove zero c (x ∷ xs) e = omega arith
length-remove (suc k) c (x ∷ xs) e = omega (arith, length-remove k c xs e)

-- The front of an array with its last element.
take_last :
    (n : ℕ) (xs : List ℕ) → n < length xs → take (suc n) xs ≡ take n xs ++ get_or xs n 0 ∷ []
take_last n [] h = absurd (omega arith)
take_last zero (x ∷ xs) h = refl
take_last (suc n) (x ∷ xs) h = ap (λ t. x ∷ t) (take_last n xs (omega arith))

-- A pool with a free block gives out the last one of its list.
alloc-IsShared :
    (p : RtMemPool) (held : List ℕ) → IsShared (p, held) → IsShared (taken held (alloc p))
unfolding alloc
alloc-IsShared p held v = elim (Bool-cases (p.free_count == 0)) [
  | inl empty ↦ rw empty v
  | inr some_left ↦
      let n = p.free_count - 1 in
      let c = get_or p.free_blocks n 0 in
      let e : p.free_count ≡ suc n = ground arith in
      let front : free_list p ≡ take n p.free_blocks ++ c ∷ [] =
        ap (λ k. take k p.free_blocks) e
        ∙ take_last n p.free_blocks (omega (arith, v.sized, v.counted)) in
      let both =
        All-split (Inside p) (take n p.free_blocks) (c ∷ [])
          (subst (All (Inside p)) front v.inside_free) in
      rw some_left (record {
        sized = v.sized;
        counted = omega (arith, v.counted);
        inside_free = both.0;
        inside_held = (both.1.0, v.inside_held);
        shared = λ b.
            let at : times b (free_list p) ≡ times b (take n p.free_blocks) + times b (c ∷ []) =
              ap (times b) front ∙ times-append b (take n p.free_blocks) (c ∷ []) in
            ground (arith, v.shared b, at);
      })
]

give_back-IsShared :
    (p : RtMemPool) (held : List ℕ) (k : ℕ) (o : Option ℕ)
    → get_elem? held k ≡ o
    → IsShared (p, held)
    → IsShared (given p held k o)
unfolding free
give_back-IsShared p held k none e v = v
give_back-IsShared p held k (some c) e v =
    let (pos, low, high) = All-get_elem? (Inside p) held k c v.inside_held e in
    let size = length-remove k c held e in
    let room : ltb p.free_count p.block_count ≡ true = ground (arith, v.counted) in
    let accepted : (c == 0
          || (ltb c p.memory || leb (p.memory + u64 (p.block_count * p.block_size)) c))
        ≡ false =
      ground arith in
    let next : p.free_count + 1 ≡ suc p.free_count = omega arith in
    let front : take (p.free_count + 1) (set p.free_blocks p.free_count c) ≡ free_list p ++ c ∷ [] =
      ap (λ n. take n (set p.free_blocks p.free_count c)) next
      ∙ take-set_end p.free_count p.free_blocks c (omega (arith, v.sized, v.counted)) in
    rw (accepted, room)
      (record {
        sized = length-set p.free_blocks p.free_count c ∙ v.sized;
        counted = omega (arith, v.counted);
        inside_free =
            subst (All (Inside p)) (sym front)
              (All-append (Inside p) (free_list p) (c ∷ []) v.inside_free ((pos, low, high), tt));
        inside_held = All-remove (Inside p) held k v.inside_held;
        shared = λ b.
            let at : times b (take (p.free_count + 1) (set p.free_blocks p.free_count c))
                ≡ times b (free_list p) + times b (c ∷ []) =
              ap (times b) front ∙ times-append b (free_list p) (c ∷ []) in
            ground (arith, v.shared b, at, times-remove b k c held e);
      })

pub run-IsShared : (s : State) (xs : List Move) → IsShared s → IsShared (run s xs)
unfolding run move
run-IsShared s [] v = v
run-IsShared (p, held) (take_block ∷ xs) v =
    run-IsShared (taken held (alloc p)) xs (alloc-IsShared p held v)
run-IsShared (p, held) (give_back k ∷ xs) v =
    run-IsShared (given p held k (get_elem? held k)) xs
      (give_back-IsShared p held k (get_elem? held k) refl v)
