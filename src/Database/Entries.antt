-- ===== src/Database/Entries.antt =====
-- database.py, the cache as a dict: what holds of all its values, and that no two of them are the same.
use mathlib.Core.Path.{subst}
use zabbig.Prelude.{
  some-injective, some-ne-none, ◌≡◌, ◌≢◌, sym, String, Bool-cases, inl, inr, some, [], ◌∷◌, All,
  All-imply, UniqueBy, ◌==◌, string_eq,
}
use zabbig.Prelude.Dict.{Dict, lookup, insert, erase}

module _ {V : Type 0} where
  abbrev pub Apart : Dict V → Type 0
  Apart = UniqueBy (λ (e : String × V). e.1)

  pub All-insert :
      (Q : V → Type 0) (k : String) (v : V) (d : Dict V)
      → Q v
      → All (λ (e : String × V). Q e.1) d
      → All (λ (e : String × V). Q e.1) (insert k v d)
  unfolding insert
  All-insert Q k v [] q h = (q, tt)
  All-insert Q k v ((j, w) ∷ d) q (h, hs) = elim (Bool-cases (k == j)) [
    | inl same ↦ rw same (q, hs)
    | inr differ ↦ rw differ (h, All-insert Q k v d q hs)
  ]

  pub All-erase :
      (Q : V → Type 0) (k : String) (d : Dict V)
      → All (λ (e : String × V). Q e.1) d
      → All (λ (e : String × V). Q e.1) (erase k d)
  unfolding erase
  All-erase Q k [] h = tt
  All-erase Q k ((j, w) ∷ d) (h, hs) = elim (Bool-cases (k == j)) [
    | inl same ↦ rw same (All-erase Q k d hs)
    | inr differ ↦ rw differ (h, All-erase Q k d hs)
  ]

  pub Apart-insert :
      (k : String) (v : V) (d : Dict V)
      → All (λ (e : String × V). v ≢ e.1) d
      → Apart d
      → Apart (insert k v d)
  unfolding insert
  Apart-insert k v [] new u = (tt, tt)
  Apart-insert k v ((j, w) ∷ d) (new, news) (u, us) = elim (Bool-cases (k == j)) [
    | inl same ↦ rw same (
      All-imply (λ (e : String × V). v ≢ e.1) (λ (e : String × V). e.1 ≢ v)
          (λ e n same. n (sym same)) d news,
      us,
    )
    | inr differ ↦ rw differ (All-insert (λ x. x ≢ w) k v d new u, Apart-insert k v d news us)
  ]

  pub Apart-erase : (k : String) (d : Dict V) → Apart d → Apart (erase k d)
  unfolding erase
  Apart-erase k [] u = tt
  Apart-erase k ((j, w) ∷ d) (u, us) = elim (Bool-cases (k == j)) [
    | inl same ↦ rw same (Apart-erase k d us)
    | inr differ ↦ rw differ (All-erase (λ x. x ≢ w) k d u, Apart-erase k d us)
  ]

  pub lookup-All :
      (Q : V → Type 0) (k : String) (v : V) (d : Dict V)
      → All (λ (e : String × V). Q e.1) d
      → lookup k d ≡ some v
      → Q v
  unfolding lookup
  lookup-All Q k v [] h e = absurd (some-ne-none v (sym e))
  lookup-All Q k v ((j, w) ∷ d) (h, hs) e = elim (Bool-cases (k == j)) [
    | inl same ↦ subst Q (some-injective w v (rw same at e)) h
    | inr differ ↦ lookup-All Q k v d hs (rw differ at e)
  ]

  -- A value that is found is none of those that are left once its key is gone.
  pub erase-differs :
      (k : String) (v : V) (d : Dict V)
      → Apart d
      → lookup k d ≡ some v
      → All (λ (e : String × V). e.1 ≢ v) (erase k d)
  unfolding lookup erase
  erase-differs k v [] u e = tt
  erase-differs k v ((j, w) ∷ d) (u, us) e = elim (Bool-cases (k == j)) [
    | inl same ↦ rw same (
        All-erase (λ x. x ≢ v) k d
          (subst (λ y. All (λ (x : String × V). x.1 ≢ y) d) (some-injective w v (rw same at e)) u))
    | inr differ ↦
        let later : lookup k d ≡ some v = rw differ at e in
        rw differ (
          λ w_is_v. lookup-All (λ x. x ≢ w) k v d u later (sym w_is_v),
          erase-differs k v d us later,
        )
  ]
