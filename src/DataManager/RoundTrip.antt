-- ===== src/DataManager/RoundTrip.antt =====
-- What has been written is read back.
use cant.Prelude.{
  ℕ, ◌+◌, ◌-◌, ◌≤◌, ◌≡◌, refl, true, false, none, some, List, ◌++◌, ltb, leb, ◌==◌, ==_iff, arith,
  ap, sym, ◌∙◌, take, drop, length, length-take, length-drop, take-append_le, drop-append_ge,
  take_all, length-append,
}
use cant.SessionManager.Calls.{get_state}
use cant.DataManager.{
  World, DataIdentifier, DataManager, scaling_none, get_identifier, data_access_read,
  data_access_write,
}
use cant.DataManager.Access.{
  FloatScaling, grants, copy_to, load, store, apply_scaling, fetch, finish_read, read_in, read_data,
  put, finish_write, write_in, write_data, notify,
}

-- The bytes stored at an address are the bytes loaded from it.
load-store :
    (memory bytes : List ℕ) (p n : ℕ)
    → length bytes ≡ n
    → p + n ≤ length memory
    → load (store memory p bytes) p n ≡ bytes
load-store memory bytes p n e h =
    let front : length (take p memory) ≡ p = omega (arith, length-take p memory) in
    let start : p - length (take p memory) ≡ 0 = omega arith in
    ap (take n) (
      drop-append_ge p (take p memory) (copy_to bytes (drop p memory)) (omega arith)
      ∙ ap (λ k. drop k (copy_to bytes (drop p memory))) start)
    ∙ take-append_le n bytes (drop (length bytes) (drop p memory)) (omega arith)
    ∙ take_all n bytes (omega arith)

-- A store inside the memory keeps its length.
length-store :
    (memory bytes : List ℕ) (p : ℕ)
    → p + length bytes ≤ length memory
    → length (store memory p bytes) ≡ length memory
length-store memory bytes p h = omega (
  arith,
  length-append (take p memory) (copy_to bytes (drop p memory)),
  length-append bytes (drop (length bytes) (drop p memory)),
  length-take p memory,
  length-drop (length bytes) (drop p memory),
  length-drop p memory,
)

-- An identifier at an address of the memory that is read and written as it is, and that a session
-- may read and write.
pub record IsPlain {W : Type 0} (world : World W) (w : W) (x : DataIdentifier W) (p : ℕ)
    : Type 0 where
  pub readable : grants x.access_rights data_access_read ≡ true
  pub writable : grants x.access_rights data_access_write ≡ true
  pub secure : x.security_level ≤ (get_state (world.sessions w)).security_level
  pub unscaled : x.scaling ≡ scaling_none
  pub direct : x.data_ptr ≡ some p
  pub unread : x.read_handler ≡ none
  pub unwritten : x.write_handler ≡ none
  pub fits : x.length ≤ 256
  pub inside : p + x.length ≤ length (world.memory w)

module _ {W : Type 0} (world : World W) (scale : FloatScaling) (m : DataManager W) where
  -- The state after the bytes have been stored.
  abbrev stored : W → ℕ → List ℕ → W
  stored w p bytes = world.with_memory w (store (world.memory w) p bytes)

  write_in_plain :
      (w : W) (x : DataIdentifier W) (p : ℕ) (stack bytes : List ℕ)
      → IsPlain world w x p
      → m.config.access_callback ≡ none
      → length bytes ≡ x.length
      → write_in world scale m w stack bytes (some x) ≡ (stored w p bytes, true)
  unfolding write_in apply_scaling put finish_write notify
  write_in_plain w x p stack bytes plain quiet e =
      let open_to : ltb (get_state (world.sessions w)).security_level x.security_level ≡ false =
        ground (arith, plain.secure) in
      let short : ltb 256 (length bytes) ≡ false = ground (arith, plain.fits) in
      let same : (length bytes == x.length) ≡ true = (==_iff (length bytes) x.length).1 e in
      let all : take (length bytes) (copy_to bytes stack) ≡ bytes =
        take-append_le (length bytes) bytes (drop (length bytes) stack) (omega arith)
        ∙ take_all (length bytes) bytes (omega arith) in
      rw
        (
          plain.writable, open_to, short, plain.unscaled, plain.unwritten, plain.direct, same,
          quiet, all,
        )
        refl

  read_in_plain :
      (w : W) (x : DataIdentifier W) (p n : ℕ) (buffer : List ℕ)
      → IsPlain world w x p
      → m.config.access_callback ≡ none
      → x.length ≤ n
      → read_in world scale m w buffer n (some x)
        ≡ (w, copy_to (load (world.memory w) p x.length) buffer, x.length, true)
  unfolding read_in apply_scaling fetch finish_read notify
  read_in_plain w x p n buffer plain quiet le =
      let open_to : ltb (get_state (world.sessions w)).security_level x.security_level ≡ false =
        ground (arith, plain.secure) in
      let room : leb x.length n ≡ true = ground arith in
      rw (plain.readable, open_to, plain.unscaled, plain.unread, plain.direct, room, quiet) refl

  stored-IsPlain :
      (w : W) (x : DataIdentifier W) (p : ℕ) (bytes : List ℕ)
      → IsPlain world w x p
      → length bytes ≡ x.length
      → IsPlain world (stored w p bytes) x p
  stored-IsPlain w x p bytes plain e = record {
    readable = plain.readable;
    writable = plain.writable;
    secure = rw (world.sessions_kept w (store (world.memory w) p bytes)) plain.secure;
    unscaled = plain.unscaled;
    direct = plain.direct;
    unread = plain.unread;
    unwritten = plain.unwritten;
    fits = plain.fits;
    inside = rw (world.memory_written w (store (world.memory w) p bytes)) (
        omega (
          arith,
          plain.inside,
          length-store (world.memory w) bytes p (omega (arith, plain.inside)),
        ));
  }

  -- Bytes that `Data_Manager_WriteData` has written to an identifier at a memory address, which is
  -- not scaled, has no handlers, at most 256 bytes and both rights at the session's security level,
  -- are what `Data_Manager_ReadData` then puts to the front of a buffer that is long enough, with
  -- their number; there is no access callback.
  pub read_data-write_data :
      (w : W) (x : DataIdentifier W) (p n : ℕ) (stack bytes buffer : List ℕ)
      → IsPlain world w x p
      → get_identifier m x.did ≡ some x
      → m.config.access_callback ≡ none
      → length bytes ≡ x.length
      → x.length ≤ n
      → let (w', done) = write_data world scale m w stack x.did (some bytes) in
        (done ≡ true)
        × (read_data world scale m w' x.did (some buffer) (some n)
            ≡ (w', some (bytes ++ drop (length bytes) buffer), some (length bytes), true))
  unfolding write_data read_data
  read_data-write_data w x p n stack bytes buffer plain known quiet e le =
      let w' = stored w p bytes in
      let memory = world.memory_written w (store (world.memory w) p bytes) in
      rw
        (
          known,
          write_in_plain w x p stack bytes plain quiet e,
          read_in_plain w' x p n buffer (stored-IsPlain w x p bytes plain e) quiet le,
        )
        (refl, rw (memory, load-store (world.memory w) bytes p x.length e plain.inside, sym e) refl)
