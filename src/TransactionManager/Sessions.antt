-- ===== src/TransactionManager/Sessions.antt =====
-- The map of sessions against a function from session ids to transactions.
use g_max_linked.Base.{
  ℕ, ◌≡◌, refl, sym, ap, ap₂, subst, ◌∙◌, ◌⊎◌, inl, inr, Bool, true, false, Bool-cases, Option,
  Option-cases, none, some, List, [], ◌∷◌, arith, ==_refl, if◌then◌else◌, if_elim,
}
use g_max_linked.TransactionManager.{
  TransactionMap, same_string, find_transaction, register_transaction, erase_session,
  unregister_transaction,
}

pub same_string_refl : (s : List ℕ) → same_string s s ≡ true
unfolding same_string
same_string_refl [] = refl
same_string_refl (c ∷ s) = rw (==_refl c, same_string_refl s) refl

pub same_string-eq : (s t : List ℕ) → same_string s t ≡ true → s ≡ t
unfolding same_string
same_string-eq [] [] e = refl
same_string-eq [] (d ∷ t) e = ground arith
same_string-eq (c ∷ s) [] e = ground arith
same_string-eq (c ∷ s) (d ∷ t) e =
    let tails : s ≡ t = same_string-eq s t (ground arith) in
    let heads : c ≡ d = ground arith in ap₂ (λ x y. x ∷ y) heads tails

-- No session stands twice in the map.
abbrev pub IsUnique : TransactionMap → Type 0
IsUnique [] = Unit {0}
IsUnique ((key, transaction) ∷ m) = (find_transaction key m ≡ none) × IsUnique m

-- The map as a function, with one session changed.
abbrev pub with_session : List ℕ → Option ℕ → TransactionMap → List ℕ → Option ℕ
with_session id value m other = if same_string id other then value else find_transaction other m

-- A registration fails, with nothing changed, or the session is the transaction's from now on, and
-- the others are as before.
pub data Registered (id : List ℕ) (transaction : ℕ) (m : TransactionMap)
    : Bool × TransactionMap → Type 0 where
  taken : {owner : ℕ} → find_transaction id m ≡ some owner → Registered id transaction m (false, m)
  new :
      {m' : TransactionMap}
      → find_transaction id m ≡ none
      → IsUnique m'
      → ((other : List ℕ) → find_transaction other m' ≡ with_session id (some transaction) m other)
      → Registered id transaction m (true, m')

find-first :
    (id : List ℕ) (transaction : ℕ) (m : TransactionMap) (other : List ℕ)
    → find_transaction other ((id, transaction) ∷ m) ≡ with_session id (some transaction) m other
unfolding find_transaction
find-first id transaction m other = refl

-- In a map in which no session stands twice, registering a session succeeds exactly when no
-- transaction has it. Then the session is the new transaction's, all the others are as before, and
-- still none stands twice; otherwise nothing changes.
pub register_lem :
    (id : List ℕ) (transaction : ℕ) (m : TransactionMap)
    → IsUnique m
    → Registered id transaction m (register_transaction id transaction m)
unfolding register_transaction
register_lem id transaction m u = elim (Option-cases (find_transaction id m)) [
  | inl e ↦ rw (register_transaction, e) (new e (e, u) (find-first id transaction m))
  | inr (owner, e) ↦ rw (register_transaction, e) (taken e)
]

-- Two strings that are the same as a third.
same_string_join :
    (s t u : List ℕ) → same_string s u ≡ true → same_string t u ≡ true → same_string s t ≡ true
same_string_join s t u p q =
    subst (λ x. same_string s x ≡ true) (same_string-eq s u p ∙ sym (same_string-eq t u q))
      (same_string_refl s)

same_string_swap : (s t u : List ℕ) → same_string s t ≡ true → same_string s u ≡ same_string t u
same_string_swap s t u p = ap (λ x. same_string x u) (same_string-eq s t p)

erase-find :
    (id : List ℕ) (m : TransactionMap)
    → IsUnique m
    → (other : List ℕ) → find_transaction other (erase_session id m) ≡ with_session id none m other
unfolding find_transaction erase_session
erase-find id [] u other = ground arith
erase-find id ((key, t) ∷ m) u other = elim (Bool-cases (same_string key id)) [
  | inl here ↦ elim (Bool-cases (same_string id other)) [
    | inl gone ↦
        let missing : find_transaction other m ≡ none =
          ap (λ x. find_transaction x m)
            (sym (same_string-eq key id here ∙ same_string-eq id other gone))
          ∙ u.0 in
        rw (here, gone) missing
    | inr kept ↦ rw (here, kept, same_string_swap key id other here, kept) refl
  ]
  | inr there ↦
      let ih = erase-find id m u.1 other in
      elim (Bool-cases (same_string key other)) [
        | inl first ↦ elim (Bool-cases (same_string id other)) [
          | inl gone ↦ absurd (ground (arith, same_string_join key id other first gone, there))
          | inr kept ↦ rw (there, first, kept) refl
        ]
        | inr later ↦ rw (there, later) ih
      ]
]

find-erase_none :
    (key id : List ℕ) (m : TransactionMap)
    → IsUnique m
    → find_transaction key m ≡ none
    → find_transaction key (erase_session id m) ≡ none
find-erase_none key id m u e = erase-find id m u key ∙ ground (arith, e)

erase-IsUnique : (id : List ℕ) (m : TransactionMap) → IsUnique m → IsUnique (erase_session id m)
unfolding erase_session
erase-IsUnique id [] u = tt
erase-IsUnique id ((key, t) ∷ m) u =
    if_elim IsUnique (same_string key id) m ((key, t) ∷ erase_session id m) u.1
      (find-erase_none key id m u.1 u.0, erase-IsUnique id m u.1)

-- An end of a session that the map does not have changes nothing; otherwise the session is free from
-- now on, and the others are as before.
pub data Unregistered (id : List ℕ) (transaction : ℕ) (m : TransactionMap)
    : Option (Bool × TransactionMap) → Type 0 where
  unknown : find_transaction id m ≡ none → Unregistered id transaction m (some (false, m))
  removed :
      {m' : TransactionMap}
      → find_transaction id m ≡ some transaction
      → IsUnique m'
      → ((other : List ℕ) → find_transaction other m' ≡ with_session id none m other)
      → Unregistered id transaction m (some (true, m'))

-- Let no session stand twice in the map, and let the session, if it is there, be the transaction's.
-- Then unregistering it never faults, answers whether it was there, and frees it and no other; and
-- still none stands twice.
pub unregister_lem :
    (c : ℕ) (id : List ℕ) (transaction : ℕ) (m : TransactionMap)
    → IsUnique m
    → (find_transaction (c ∷ id) m ≡ none) ⊎ (find_transaction (c ∷ id) m ≡ some transaction)
    → Unregistered (c ∷ id) transaction m (unregister_transaction (c ∷ id) transaction m)
unfolding unregister_transaction
unregister_lem c id transaction m u (inl e) = rw (unregister_transaction, e) (unknown e)
unregister_lem c id transaction m u (inr e) =
    rw (unregister_transaction, e, ==_refl transaction)
      (removed e (erase-IsUnique (c ∷ id) m u) (erase-find (c ∷ id) m u))
