-- ===== src/DataManager/Table.antt =====
-- Adding, removing and finding data identifiers.
use cant.Prelude.{
  ℕ, ◌<◌, ◌≡◌, refl, true, not, ◌&&◌, Option, none, some, ◌==◌, ltb, leb, if◌then◌else◌, arith, ◌∙◌,
  Bool-cases, inl, inr,
}
use cant.Prelude.Table.{is_some, find_by-Found, entry_of-find_by, lookup, Found}
use cant.Prelude.Table.Arrays.{IsTable, add-IsTable, lookup_added, remove-IsTable, lookup_removed}
use cant.DataManager.{
  DataIdentifier, DataManager, did_of, find_identifier, active, max_identifiers, add_in,
  add_identifier, remove_in, remove_identifier, get_identifier,
}

-- The array keeps its length, the count its bound, and the identifiers in use are different.
abbrev pub IsValid : {W : Type 0} → DataManager W → Type 0
IsValid m = IsTable did_of max_identifiers m.identifiers m.identifier_count

module _ {W : Type 0} where
  get_identifier_on :
      (m : DataManager W) (did : ℕ)
      → m.initialized ≡ true
      → get_identifier m did ≡ lookup did_of did (active m)
  unfolding get_identifier
  get_identifier_on m did on = rw on (entry_of-find_by did_of did (active m))

  add_in_lem :
      (m : DataManager W) (x : DataIdentifier W) (k : ℕ) (o : Option (ℕ × DataIdentifier W))
      → IsValid m
      → Found did_of x.did (active m) o
      → let (m', done) = add_in m x o in
        IsValid m'
        × (m'.initialized ≡ m.initialized)
        × (done ≡ (
            not (is_some (lookup did_of x.did (active m)))
            && ltb m.identifier_count max_identifiers))
        × (lookup did_of k (active m')
            ≡ (if done && x.did == k then some x else lookup did_of k (active m)))
  unfolding add_in
  add_in_lem m x k (some (i, c)) v h = (v, refl, rw (h.1) refl, refl)
  add_in_lem m x k none v h = elim (Bool-cases (leb max_identifiers m.identifier_count)) [
    | inl full ↦ rw full (v, refl, rw h (ground arith), refl)
    | inr room ↦ rw room (
      add-IsTable v x (ground arith) h,
      refl,
      rw h (ground arith),
      lookup_added v k x (ground arith) h,
    )
  ]

  add_identifier_on :
      (m : DataManager W) (x : DataIdentifier W)
      → m.initialized ≡ true
      → add_identifier m (some x) ≡ add_in m x (find_identifier m x.did)
  unfolding add_identifier
  add_identifier_on m x on = rw on refl

  remove_in_lem :
      (m : DataManager W) (did k : ℕ) (o : Option (ℕ × DataIdentifier W))
      → IsValid m
      → Found did_of did (active m) o
      → let (m', done) = remove_in m o in
        IsValid m'
        × (m'.initialized ≡ m.initialized)
        × (done ≡ is_some (lookup did_of did (active m)))
        × (lookup did_of k (active m') ≡ (if k == did then none else lookup did_of k (active m)))
  unfolding remove_in
  remove_in_lem m did k none v h = (v, refl, rw h refl, ground (arith, h))
  remove_in_lem m did k (some (i, c)) v h =
      (remove-IsTable v did i c h, refl, rw (h.1) refl, lookup_removed v did k i c h)

  remove_identifier_on :
      (m : DataManager W) (did : ℕ)
      → m.initialized ≡ true
      → remove_identifier m did ≡ remove_in m (find_identifier m did)
  unfolding remove_identifier
  remove_identifier_on m did on = rw on refl

  pub add_identifier_lem :
      (m : DataManager W) (x : DataIdentifier W) (k : ℕ)
      → IsValid m
      → m.initialized ≡ true
      → let (m', done) = add_identifier m (some x) in
        IsValid m'
        × (m'.initialized ≡ m.initialized)
        × (done
            ≡ (not (is_some (get_identifier m x.did)) && ltb m.identifier_count max_identifiers))
        × (get_identifier m' k ≡ (if done && x.did == k then some x else get_identifier m k))
  add_identifier_lem m x k v on =
      let (w, on', done, found) =
        add_in_lem m x k (find_identifier m x.did) v (find_by-Found did_of x.did (active m)) in
      let m' = (add_in m x (find_identifier m x.did)).0 in
      rw
        (
          add_identifier_on m x on,
          get_identifier_on m x.did on,
          get_identifier_on m' k (on' ∙ on),
          get_identifier_on m k on,
        )
        (w, on', done, found)

  pub remove_identifier_lem :
      (m : DataManager W) (did k : ℕ)
      → IsValid m
      → m.initialized ≡ true
      → let (m', done) = remove_identifier m did in
        IsValid m'
        × (m'.initialized ≡ m.initialized)
        × (done ≡ is_some (get_identifier m did))
        × (get_identifier m' k ≡ (if k == did then none else get_identifier m k))
  remove_identifier_lem m did k v on =
      let (w, on', done, found) =
        remove_in_lem m did k (find_identifier m did) v (find_by-Found did_of did (active m)) in
      let m' = (remove_in m (find_identifier m did)).0 in
      rw
        (
          remove_identifier_on m did on,
          get_identifier_on m did on,
          get_identifier_on m' k (on' ∙ on),
          get_identifier_on m k on,
        )
        (w, on', done, found)

  -- On a valid table that is set up and has room, an identifier that is not known can be added and
  -- removed again; both succeed, then every search gives what it gave before the two, and the table
  -- is valid.
  pub remove_identifier-add_identifier :
      (m : DataManager W) (x : DataIdentifier W) (k : ℕ)
      → IsValid m
      → m.initialized ≡ true
      → get_identifier m x.did ≡ none
      → m.identifier_count < max_identifiers
      → let (m', added) = add_identifier m (some x) in
        let (m'', removed) = remove_identifier m' x.did in
        IsValid m''
        × (added ≡ true)
        × (removed ≡ true)
        × (get_identifier m'' k ≡ get_identifier m k)
  remove_identifier-add_identifier m x k v on fresh room =
      let (w, on', added, found) = add_identifier_lem m x x.did v on in
      let (w', on'', added', found') = add_identifier_lem m x k v on in
      let m' = (add_identifier m (some x)).0 in
      let (u, on2, removed, gone) = remove_identifier_lem m' x.did k w (on' ∙ on) in
      let did_add : (add_identifier m (some x)).1 ≡ true = added ∙ rw fresh (ground arith) in
      (
        u,
        did_add,
        removed ∙ rw (found, did_add) (ground arith),
        gone ∙ ground (arith, found', fresh, did_add),
      )
