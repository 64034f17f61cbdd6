-- ===== src/TtlCache/Update.antt =====
-- `update` against the view of a cache: what its loop over the entries binds.
use mathlib.Core.Logic.{ite}
use python_ctools.Base.{
  ℕ, ◌+◌, ◌^◌, ◌≤◌, ◌<◌, ◌≡◌, refl, ap, Bool, true, Option, none, some, [], ◌∷◌, arith, ok,
}
use python_ctools.Base.Dict.{Dict}
use python_ctools.TtlCache.{TtlCache, set_item}
use python_ctools.TtlCache.Methods.{set_all, update}
use python_ctools.TtlCache.Live.{IsValid, live, set_item_stores, set_item-live}
use python_ctools.TtlCache.Invariant.{set_item-IsValid}

module _ {ℓ} {K V : Type ℓ} (dec : Discrete K) (hashable : K → Bool) (py_none : V) where
  -- the last value that the entries give a key, or else the old one
  pub last_of : Dict K V → K → Option V → Option V
  last_of [] q old = old
  last_of ((key, value) ∷ entries) q old = last_of entries q (ite (dec key q) (some value) old)

  abbrev AllHashable : Dict K V → Type 0
  AllHashable [] = Unit
  AllHashable ((key, _) ∷ entries) = (hashable key ≡ true) × AllHashable entries

  set_all-live :
      (now n : ℕ) (self : TtlCache K V) (entries : Dict K V)
      → IsValid dec self
      → AllHashable entries
      → now + self.default_ttl < 2 ^ 63
      → ((set_all dec hashable py_none (λ _. now) n self entries).1 ≡ ok tt)
        × ((later : ℕ) (q : K)
            → later ≤ now + self.default_ttl
            → live dec (set_all dec hashable py_none (λ _. now) n self entries).0 later q
              ≡ last_of entries q (live dec self later q))
  unfolding set_all last_of
  set_all-live now n self [] v h fits = (refl, λ later q le. refl)
  set_all-live now n self ((key, value) ∷ entries) v h fits =
      let after : TtlCache K V = (set_item dec hashable self key value now).0 in
      let stored = set_item_stores dec hashable self key value now v h.0 fits in
      let same : after.default_ttl ≡ self.default_ttl = ap (λ t. t.0.default_ttl) stored in
      let bound = set_item-live dec hashable self key value now v h.0 fits in
      let rest =
        set_all-live now (n + 1) after entries (set_item-IsValid dec hashable self key value now v)
          h.1 (rw same fits) in
      (
        ground (arith, bound.0, rest.0),
        λ later q le. ground (arith, bound.0, rest.1 later q (rw same le), bound.1 later q),
      )

  -- With a dict or with keywords alone, all of one reading of the time, whose keys are hashable,
  -- `update` succeeds and binds each key to the last value that the entries give it, until that time
  -- plus the default lifetime; other keys keep their binding. It rests on `PyDict_Next` yielding all
  -- entries from position 0 on.
  pub update_binds :
      (end_pos : Dict K V → ℕ) (from_pos : ℕ → Dict K V → Dict K V)
      → ((d : Dict K V) → from_pos 0 d ≡ d)
      → (now : ℕ) (self : TtlCache K V) (entries : Dict K V) → IsValid dec self
      → AllHashable entries
      → now + self.default_ttl < 2 ^ 63
      → (update dec hashable py_none end_pos from_pos (λ _. now) self (some entries) none
          ≡ update dec hashable py_none end_pos from_pos (λ _. now) self none (some entries))
        × ((update dec hashable py_none end_pos from_pos (λ _. now) self (some entries) none).1
            ≡ ok tt)
        × ((later : ℕ) (q : K)
            → later ≤ now + self.default_ttl
            → live dec
                (update dec hashable py_none end_pos from_pos (λ _. now) self (some entries) none).0
                later
                q
              ≡ last_of entries q (live dec self later q))
  unfolding update
  update_binds end_pos from_pos all now self entries v h fits =
      let (done, bound) = set_all-live now 0 self entries v h fits in
      (refl, rw (all entries) done, λ later q le. rw (all entries) (bound later q le))
