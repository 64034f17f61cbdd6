-- ===== src/TtlCache/Live.antt =====
-- What a client can see of a cache at a time: the value of each key that has not expired. The
-- operations, against that view.
use mathlib.Core.Logic.{ite}
use mathlib.Core.Option.{get_or, map}
use python_ctools.Base.{
  ℕ, zero, suc, ◌+◌, ◌^◌, ◌≤◌, ◌<◌, ◌≡◌, refl, Bool, true, false, Option, none, some, ltb,
  if◌then◌else◌, arith, ok, ◌>>=◌, raise, key_error, raised,
}
use python_ctools.Base.Dict
use python_ctools.Base.Dict.{Dict, Distinct, get_item-set_item, get_item-del_item}
use python_ctools.TtlCache.{
  Entry, TtlCache, expiry, entry_new, get_ttl_item, put_entry, set_item, subscript, contains,
}
use python_ctools.TtlCache.Methods.{get}

-- the value of an entry that has not expired
abbrev unexpired {ℓ} : {V : Type ℓ} → ℕ → Option (Entry V) → Option V
unexpired now none = none
unexpired now (some entry) = if ltb entry.expire now then none else some entry.ma_value

module _ {ℓ} {K V : Type ℓ} (dec : Discrete K) where
  -- The view: what key `key` is bound to at time `now`.
  abbrev pub live : TtlCache K V → ℕ → K → Option V
  live self now key = unexpired now (Dict.get_item dec key self.dict)

  -- Each key stands once in the dict, and the default lifetime is positive.
  pub record IsValid (self : TtlCache K V) : Type ℓ where
    pub distinct : Distinct dec self.dict
    pub positive : 0 < self.default_ttl

module _ {ℓ} {K V : Type ℓ} (dec : Discrete K) (hashable : K → Bool) where
  -- A lookup of a hashable key in a valid cache finds an entry exactly if the key is bound at that
  -- time, with its value; of what it leaves, every key is bound as before, at that time and at every
  -- later one.
  pub get_ttl_item-live :
      (self : TtlCache K V) (key q : K) (now later : ℕ)
      → IsValid dec self
      → hashable key ≡ true
      → now ≤ later
      → (((get_ttl_item dec hashable self key now).1
            >>= (λ found. ok (map (λ e. e.ma_value) found)))
          ≡ ok (live dec self now key))
        × (live dec (get_ttl_item dec hashable self key now).0 later q ≡ live dec self later q)
  unfolding get_ttl_item Dict.lookup
  get_ttl_item-live self key q now later v h le =
      (ground (arith, h), ground (arith, h, get_item-del_item dec key q self.dict v.distinct))

  -- `get`, `[]` and `in` of a hashable key answer by the view: `get` with the value, else the
  -- default, else None; `[]` with the value or KeyError; `in` with whether there is one. For an
  -- unhashable key all three pass on the exception and leave the cache as it was.
  pub reads_live :
      (py_none : V) (self : TtlCache K V) (key : K) (default : Option V) (now : ℕ)
      → (hashable key ≡ true
          → ((get dec hashable py_none self key default now).1
              ≡ ok (get_or (live dec self now key) (get_or default py_none)))
            × ((subscript dec hashable self key now).1
                ≡ elim (live dec self now key) [ none ↦ raise key_error | some v ↦ ok v ])
            × ((contains dec hashable self key now).1
                ≡ ok (elim (live dec self now key) [ none ↦ false | some v ↦ true ])))
        × (hashable key ≡ false
            → (get dec hashable py_none self key default now ≡ (self, raise raised))
              × (subscript dec hashable self key now ≡ (self, raise raised))
              × (contains dec hashable self key now ≡ (self, raise raised)))
  unfolding get subscript contains get_ttl_item Dict.lookup
  reads_live py_none self key default now = (
    λ h. (ground (arith, h), ground (arith, h), ground (arith, h)),
    λ h. (ground (arith, h), ground (arith, h), ground (arith, h)),
  )

  entry_new_lem :
      (value : V) (ttl now : ℕ)
      → 0 < ttl
      → now + ttl < 2 ^ 63
      → entry_new value ttl now ≡ ok (record { ma_value = value; expire = now + ttl })
  unfolding entry_new expiry
  entry_new_lem value zero now positive fits = absurd (omega arith)
  entry_new_lem value (suc ttl) now positive fits = ground arith

  pub set_item_stores :
      (self : TtlCache K V) (key : K) (value : V) (now : ℕ)
      → IsValid dec self
      → hashable key ≡ true
      → now + self.default_ttl < 2 ^ 63
      → set_item dec hashable self key value now ≡ (
        record self {
          dict =
              Dict.set_item dec key
                (record { ma_value = value; expire = now + self.default_ttl })
                self.dict;
        },
        ok tt,
      )
  unfolding set_item Dict.lookup put_entry Dict.store expiry
  set_item_stores self key value now v h fits =
      ground (arith, h, entry_new_lem value self.default_ttl now v.positive fits)

  -- A store of a hashable key succeeds, if the time and the default lifetime have a sum below
  -- 2 ^ 63. From then on the key is bound to the value up to and including the second
  -- now + default_ttl, and to nothing after; all other keys are bound as before.
  pub set_item-live :
      (self : TtlCache K V) (key : K) (value : V) (now : ℕ)
      → IsValid dec self
      → hashable key ≡ true
      → now + self.default_ttl < 2 ^ 63
      → ((set_item dec hashable self key value now).1 ≡ ok tt)
        × ((later : ℕ) (q : K)
            → live dec (set_item dec hashable self key value now).0 later q
              ≡ ite
                  (dec key q)
                  (if ltb (now + self.default_ttl) later then none else some value)
                  (live dec self later q))
  set_item-live self key value now v h fits = rw (set_item_stores self key value now v h fits) (
    refl,
    λ later q. ground (
      arith,
      get_item-set_item dec key q (record { ma_value = value; expire = now + self.default_ttl })
          self.dict,
    ),
  )
