-- ===== src/TtlCache/Invariant.antt =====
-- No method leaves a cache with a key twice or a lifetime of zero, whatever it raises.
use python_ctools.Base.{
  ℕ, zero, suc, ◌+◌, ◌≡◌, Bool, Option, none, some, [], ◌∷◌, arith, Result, ok, raise, fault, subst,
  ok-injective, List-cases, inl, inr,
}
use mathlib.Core.Option.{get_or}
use python_ctools.Base.Int.{ℤ, pos, negsuc}
use python_ctools.Base.Dict
use python_ctools.Base.Dict.{Dict, Distinct, set_item-Distinct, del_item-Distinct}
use python_ctools.TtlCache.{
  Entry, TtlCache, new, tp_new, clear, set_default_ttl, expiry, entry_new, get_ttl_item, put_entry,
  set_item, del_item,
}
use python_ctools.TtlCache.Methods.{pop, popitem, set_and_return, setdefault, set_all}
use python_ctools.TtlCache.Live.{IsValid}

module _ {ℓ} {K V : Type ℓ} (dec : Discrete K) where
  pub tp_new-IsValid :
      (arg : Option ℤ) {self : TtlCache K V} → tp_new arg ≡ ok self → IsValid dec self
  unfolding tp_new new
  tp_new-IsValid none e =
      subst (IsValid dec) (ok-injective e) (record { distinct = tt; positive = omega arith })
  tp_new-IsValid (some (pos zero)) e = cc
  tp_new-IsValid (some (pos (suc n))) e =
      subst (IsValid dec) (ok-injective e) (record { distinct = tt; positive = omega arith })
  tp_new-IsValid (some (negsuc n)) e = cc

  pub clear-IsValid : (self : TtlCache K V) → IsValid dec self → IsValid dec (clear self)
  unfolding clear
  clear-IsValid self v = record { distinct = tt; positive = v.positive }

  pub set_default_ttl-IsValid :
      (self : TtlCache K V) (arg : Option ℤ)
      → IsValid dec self
      → IsValid dec (set_default_ttl self arg).0
  unfolding set_default_ttl
  set_default_ttl-IsValid self none v = v
  set_default_ttl-IsValid self (some (pos zero)) v = v
  set_default_ttl-IsValid self (some (pos (suc n))) v = record {
    distinct = v.distinct;
    positive = omega arith;
  }
  set_default_ttl-IsValid self (some (negsuc n)) v = v

module _ {ℓ} {K V : Type ℓ} (dec : Discrete K) (hashable : K → Bool) where
  pub get_ttl_item-IsValid :
      (self : TtlCache K V) (key : K) (now : ℕ)
      → IsValid dec self
      → IsValid dec (get_ttl_item dec hashable self key now).0
  unfolding get_ttl_item Dict.lookup
  get_ttl_item-IsValid self key now v =
      ground (arith, del_item-Distinct dec key self.dict v.distinct)

  put_entry-IsValid :
      (self : TtlCache K V) (key : K) (made : Result (Entry V))
      → IsValid dec self
      → IsValid dec (put_entry dec hashable self key made).0
  unfolding put_entry Dict.store
  put_entry-IsValid self key (ok entry) v =
      ground (arith, set_item-Distinct dec key entry self.dict v.distinct)
  put_entry-IsValid self key (raise e) v = v
  put_entry-IsValid self key (fault f) v = v

  pub set_item-IsValid :
      (self : TtlCache K V) (key : K) (value : V) (now : ℕ)
      → IsValid dec self
      → IsValid dec (set_item dec hashable self key value now).0
  unfolding set_item Dict.lookup expiry
  set_item-IsValid self key value now v = ground (
    arith,
    set_item-Distinct dec key (record { ma_value = value; expire = now + self.default_ttl })
        self.dict v.distinct,
    put_entry-IsValid self key (entry_new value self.default_ttl now) v,
  )

  pub del_item-IsValid :
      (self : TtlCache K V) (key : K)
      → IsValid dec self
      → IsValid dec (del_item dec hashable self key).0
  unfolding del_item Dict.delete
  del_item-IsValid self key v = ground (arith, del_item-Distinct dec key self.dict v.distinct)

  module _ (py_none : V) where
    pub pop-IsValid :
        (self : TtlCache K V) (key : K) (default : Option V) (now : ℕ)
        → IsValid dec self
        → IsValid dec (pop dec hashable py_none self key default now).0
    unfolding pop
    pop-IsValid self key default now v = ground (
      arith,
      get_ttl_item-IsValid self key now v,
      del_item-IsValid (get_ttl_item dec hashable self key now).0 key,
    )

    pub popitem-IsValid :
        (self : TtlCache K V) → IsValid dec self → IsValid dec (popitem dec hashable py_none self).0
    unfolding popitem Dict.lookup
    popitem-IsValid self v = elim (List-cases self.dict) [
      | inl e ↦ ground arith
      | inr (first, rest, e) ↦ ground (arith, del_item-IsValid self first.0 v)
    ]

    pub set_and_return-IsValid :
        (self : TtlCache K V) (key : K) (value : V) (now : ℕ)
        → IsValid dec self
        → IsValid dec (set_and_return dec hashable py_none self key value now).0
    unfolding set_and_return
    set_and_return-IsValid self key value now v =
        ground (arith, set_item-IsValid self key value now v)

    pub setdefault-IsValid :
        (self : TtlCache K V) (key : K) (default : Option V) (now later : ℕ)
        → IsValid dec self
        → IsValid dec (setdefault dec hashable py_none self key default now later).0
    unfolding setdefault
    setdefault-IsValid self key default now later v = ground (
      arith,
      get_ttl_item-IsValid self key now v,
      set_and_return-IsValid (get_ttl_item dec hashable self key now).0 key (get_or default py_none)
          later,
    )

    pub set_all-IsValid :
        (clock : ℕ → ℕ) (n : ℕ) (self : TtlCache K V) (entries : Dict K V)
        → IsValid dec self
        → IsValid dec (set_all dec hashable py_none clock n self entries).0
    unfolding set_all
    set_all-IsValid clock n self [] v = v
    set_all-IsValid clock n self ((key, value) ∷ entries) v = ground (
      arith,
      set_item-IsValid self key value (clock n) v,
      set_all-IsValid clock (n + 1) (set_item dec hashable self key value (clock n)).0 entries,
    )
