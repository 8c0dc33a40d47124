-- ===== src/RtMemory/Sharing.antt =====
-- A pool that has been made, and what its client can come to hold.
use cant.Prelude.{
  ℕ, zero, suc, ◌+◌, ◌*◌, ◌<◌, ◌≤◌, ◌≡◌, refl, true, false, ◌||◌, Option, none, some, List, [], ◌∷◌,
  ltb, leb, ◌==◌, take, get_elem?, length, arith, ap, sym, ◌∙◌, Bool-cases, inl, inr, All, All-map,
  if_intro, take_all,
}
use mathlib.Core.Path.{subst}
use cant.RtMemory.{RtMemPool, u64, u64_mod, fill, aligned, create, alloc, free}
use cant.RtMemory.Client.{
  State, Move, take_block, give_back, taken, given, move, run, times, blocks, free_list, Inside,
  IsShared, run-IsShared,
}

fill_bounds :
    (memory size i n : ℕ)
    → 0 < size
    → All (λ b. (memory + i * size ≤ b) × (b < memory + (i + n) * size)) (fill memory size i n)
unfolding fill
fill_bounds memory size i zero h = tt
fill_bounds memory size i (suc n) h =
    let first : (i + suc n) * size ≡ i * size + (n * size + size) = grind arith in
    let next : (i + 1) * size ≡ i * size + size = grind arith in
    let whole : i + 1 + n ≡ i + suc n = omega arith in
    (
      (omega arith, omega arith),
      All-map (λ b. (memory + (i + 1) * size ≤ b) × (b < memory + (i + 1 + n) * size))
          (λ b. (memory + i * size ≤ b) × (b < memory + (i + suc n) * size))
          (fill memory size (i + 1) n)
          (λ b k. (omega (arith, k.0), subst (λ t. b < memory + t * size) whole k.1))
          (fill_bounds memory size (i + 1) n h),
    )

length-fill : (memory size i n : ℕ) → length (fill memory size i n) ≡ n
unfolding fill
length-fill memory size i zero = refl
length-fill memory size i (suc n) = ap suc (length-fill memory size (i + 1) n)

times-above : (b : ℕ) (xs : List ℕ) → All (λ x. b < x) xs → times b xs ≡ 0
times-above b [] h = refl
times-above b (x ∷ xs) h = ground (arith, h.0, times-above b xs h.1)

-- The blocks of a pool are different.
times-fill : (b memory size i n : ℕ) → 0 < size → times b (fill memory size i n) ≤ 1
unfolding fill
times-fill b memory size i zero h = omega arith
times-fill b memory size i (suc n) h =
    let next : (i + 1) * size ≡ i * size + size = grind arith in
    elim (Bool-cases (memory + i * size == b)) [
      | inl here ↦
          let e : memory + i * size ≡ b = ground arith in
          let above =
            All-map (λ x. (memory + (i + 1) * size ≤ x) × (x < memory + (i + 1 + n) * size))
              (λ x. b < x) (fill memory size (i + 1) n) (λ x k. omega (arith, k.0))
              (fill_bounds memory size (i + 1) n h) in
          rw (here, times-above b (fill memory size (i + 1) n) above) (omega arith)
      | inr not_here ↦ rw not_here (times-fill b memory size (i + 1) n h)
    ]

-- The pool has the same blocks.
abbrev SameBlocks : RtMemPool → RtMemPool → Type 0
SameBlocks p q =
    (q.memory ≡ p.memory) × (q.block_size ≡ p.block_size) × (q.block_count ≡ p.block_count)

alloc-SameBlocks : (p : RtMemPool) (held : List ℕ) → SameBlocks p (taken held (alloc p)).0
unfolding alloc
alloc-SameBlocks p held =
    if_intro (λ (x : RtMemPool × Option ℕ). SameBlocks p (taken held x).0) (p.free_count == 0) _ _
      (λ e. (refl, refl, refl)) (λ e. (refl, refl, refl))

give_back-SameBlocks :
    (p : RtMemPool) (held : List ℕ) (k : ℕ) (o : Option ℕ) → SameBlocks p (given p held k o).0
unfolding free
give_back-SameBlocks p held k none = (refl, refl, refl)
give_back-SameBlocks p held k (some c) =
    if_intro (SameBlocks p)
      (c == 0 || (ltb c p.memory || leb (p.memory + u64 (p.block_count * p.block_size)) c)) _ _
      (λ e. (refl, refl, refl))
      (λ e.
        if_intro (SameBlocks p) (ltb p.free_count p.block_count) _ _ (λ d. (refl, refl, refl))
          (λ d. (refl, refl, refl)))

run-SameBlocks : (s : State) (xs : List Move) → SameBlocks s.0 (run s xs).0
unfolding run move
run-SameBlocks s [] = (refl, refl, refl)
run-SameBlocks (p, held) (take_block ∷ xs) =
    let (a, b, c) = alloc-SameBlocks p held in
    let (d, e, f) = run-SameBlocks (taken held (alloc p)) xs in (d ∙ a, e ∙ b, f ∙ c)
run-SameBlocks (p, held) (give_back k ∷ xs) =
    let (a, b, c) = give_back-SameBlocks p held k (get_elem? held k) in
    let (d, e, f) = run-SameBlocks (given p held k (get_elem? held k)) xs in (d ∙ a, e ∙ b, f ∙ c)

-- A pool as `rt_mempool_create` makes it from memory that lies between the addresses.
abbrev pub fresh : ℕ → ℕ → ℕ → RtMemPool
fresh memory size n = record {
  memory = memory;
  free_blocks = fill memory size 0 n;
  block_size = size;
  block_count = n;
  free_count = n;
}

fresh-IsShared :
    (memory size n : ℕ)
    → 0 < memory
    → 0 < size
    → n * size < u64_mod
    → IsShared (fresh memory size n, [])
fresh-IsShared memory size n pos h fits =
    let whole : take n (fill memory size 0 n) ≡ fill memory size 0 n =
      take_all n (fill memory size 0 n) (omega (arith, length-fill memory size 0 n)) in
    let bound : (0 + n) * size ≡ n * size = grind arith in
    let exact : u64 (n * size) ≡ n * size = omega arith in
    record {
      sized = length-fill memory size 0 n;
      counted = omega arith;
      inside_free = subst (All (Inside (fresh memory size n))) (sym whole) (
          All-map (λ b. (memory + 0 * size ≤ b) × (b < memory + (0 + n) * size))
            (Inside (fresh memory size n)) (fill memory size 0 n)
            (λ b k. (omega (arith, k.0), omega (arith, k.0), omega (arith, k.1)))
            (fill_bounds memory size 0 n h));
      inside_held = tt;
      shared = λ b. omega (arith, ap (times b) whole);
    }

create-fresh :
    (block_size n memory : ℕ) (p : RtMemPool)
    → 0 < memory
    → create block_size n true memory true ≡ some p
    → p ≡ fresh memory (aligned block_size) n
unfolding create
create-fresh block_size n memory p pos e =
    let given_memory : (memory == 0) ≡ false = ground arith in
    let made : create block_size n true memory true ≡ some (fresh memory (aligned block_size) n) =
      rw given_memory refl in
    let both : some p ≡ some (fresh memory (aligned block_size) n) = sym e ∙ made in cc

aligned-pos : (block_size : ℕ) → 0 < block_size → block_size + 63 < u64_mod → 0 < aligned block_size
unfolding aligned
aligned-pos block_size h k = omega arith

-- A client of a pool that `rt_mempool_create` has made, whose blocks are not empty and fit the
-- addresses, and that gives back only blocks which it holds: after any of its moves each block of
-- the pool is either free once or held once, no other block is, and no block is lost.
pub run-create :
    (block_size n memory : ℕ) (p : RtMemPool) (moves : List Move) (b : ℕ)
    → create block_size n true memory true ≡ some p
    → 0 < memory
    → 0 < block_size
    → block_size + 63 < u64_mod
    → n * aligned block_size < u64_mod
    → let (p', held) = run (p, []) moves in
      (times b (free_list p') + times b held ≡ times b (blocks p))
      × (times b (blocks p) ≤ 1)
      × (p'.free_count + length held ≡ n)
run-create block_size n memory p moves b e pos h small fits =
    let q = fresh memory (aligned block_size) n in
    let same = create-fresh block_size n memory p pos e in
    let size = aligned-pos block_size h small in
    let v =
      run-IsShared (q, []) moves (fresh-IsShared memory (aligned block_size) n pos size fits) in
    let (a, s, c) = run-SameBlocks (q, []) moves in
    let kept : blocks (run (q, []) moves).0 ≡ blocks q = rw (a, s, c) refl in
    rw same (
      v.shared b ∙ ap (times b) kept,
      times-fill b memory (aligned block_size) 0 n size,
      v.counted ∙ c,
    )
