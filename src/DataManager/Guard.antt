-- ===== src/DataManager/Guard.antt =====
-- Data that a caller has no access to.
use cant.Prelude.{
  ℕ, ◌≡◌, refl, Bool, true, false, ◌&&◌, Option, none, some, List, leb, arith, sym, ◌∙◌, ◌⊎◌, inl,
  inr, Bool-cases,
}
use cant.SessionManager.Calls.{get_state}
use cant.DataManager.{
  World, DataIdentifier, DataManager, get_identifier, data_access_read, data_access_write,
}
use cant.DataManager.Access.{
  FloatScaling, grants, read_in, read_data, write_in, write_data, has_access,
}

module _ {W : Type 0} (world : World W) (scale : FloatScaling) where
  -- Whether an identifier gives a right at the present security level.
  abbrev allows : W → ℕ → Option (DataIdentifier W) → Bool
  allows w access none = false
  allows w access (some x) =
      grants x.access_rights access
      && leb x.security_level (get_state (world.sessions w)).security_level

  read_in-refused :
      (m : DataManager W) (w : W) (buffer : List ℕ) (n : ℕ) (o : Option (DataIdentifier W))
      → allows w data_access_read o ≡ false
      → read_in world scale m w buffer n o ≡ (w, buffer, n, false)
  unfolding read_in
  read_in-refused m w buffer n none h = refl
  read_in-refused m w buffer n (some x) h = ground arith

  write_in-refused :
      (m : DataManager W) (w : W) (stack bytes : List ℕ) (o : Option (DataIdentifier W))
      → allows w data_access_write o ≡ false
      → write_in world scale m w stack bytes o ≡ (w, false)
  unfolding write_in
  write_in-refused m w stack bytes none h = refl
  write_in-refused m w stack bytes (some x) h = ground arith

  read_data-refused :
      (m : DataManager W) (w : W) (did : ℕ) (buffer : Option (List ℕ)) (n : Option ℕ)
      → allows w data_access_read (get_identifier m did) ≡ false
      → read_data world scale m w did buffer n ≡ (w, buffer, n, false)
  unfolding read_data
  read_data-refused m w did none n h = refl
  read_data-refused m w did (some buffer) none h = refl
  read_data-refused m w did (some buffer) (some n) h =
      rw (read_in-refused m w buffer n (get_identifier m did) h) refl

  write_data-refused :
      (m : DataManager W) (w : W) (stack : List ℕ) (did : ℕ) (bytes : Option (List ℕ))
      → allows w data_access_write (get_identifier m did) ≡ false
      → write_data world scale m w stack did bytes ≡ (w, false)
  unfolding write_data
  write_data-refused m w stack did none h = refl
  write_data-refused m w stack did (some bytes) h =
      write_in-refused m w stack bytes (get_identifier m did) h

  has_access-allows :
      (m : DataManager W) (w : W) (did access : ℕ) (o : Option (DataIdentifier W))
      → get_identifier m did ≡ o
      → has_access world scale m w did access ≡ allows w access o
  unfolding has_access
  has_access-allows m w did access none e = rw (has_access, e) refl
  has_access-allows m w did access (some x) e = rw (has_access, e) refl

  -- `Data_Manager_ReadData` of what `Data_Manager_HasAccess` does not give the right to read fails
  -- and leaves the state, the buffer and the length as they are, NULL or not; `Data_Manager_WriteData` of what it
  -- does not give the right to write fails and leaves the state as it is.
  pub has_access-refused :
      (m : DataManager W) (w : W) (stack : List ℕ) (did : ℕ) (n : Option ℕ)
      (buffer bytes : Option (List ℕ))
      → ((has_access world scale m w did data_access_read ≡ true)
          ⊎ (read_data world scale m w did buffer n ≡ (w, buffer, n, false)))
        × ((has_access world scale m w did data_access_write ≡ true)
            ⊎ (write_data world scale m w stack did bytes ≡ (w, false)))
  has_access-refused m w stack did n buffer bytes =
      let o = get_identifier m did in
      let may_read = has_access-allows m w did data_access_read o refl in
      let may_write = has_access-allows m w did data_access_write o refl in
      (
        elim (Bool-cases (has_access world scale m w did data_access_read)) [
          | inl may ↦ inl may
          | inr not_so ↦ inr (read_data-refused m w did buffer n (sym may_read ∙ not_so))
        ],
        elim (Bool-cases (has_access world scale m w did data_access_write)) [
          | inl may ↦ inl may
          | inr not_so ↦ inr (write_data-refused m w stack did bytes (sym may_write ∙ not_so))
        ],
      )
