-- ===== src/CacheMap/Calls.antt =====
-- The methods that combine lookups, stores, deletions and evictions keep a valid map valid.
use python_ctools.Base.{
  ℕ, zero, suc, ◌+◌, ◌*◌, ◌^◌, ◌<◌, ltb, ◌&&◌, if◌then◌else◌, Fault, ◌≡◌, refl, Bool, Option, none,
  some, Option-cases, List, [], ◌∷◌, List-cases, inl, inr, arith, length, Result, ok, raise, fault,
}
use mathlib.Core.Option.{get_or}
use python_ctools.Base.Int.{ℤ, pos, negsuc}
use python_ctools.Base.Dict
use python_ctools.Base.Dict.{Dict}
use python_ctools.CacheMap.{CacheMap}
use python_ctools.CacheMap.Evict.{evict}
use python_ctools.CacheMap.Methods.{visit, set_item, ass_sub, pop}
use python_ctools.CacheMap.Compound.{
  popitem, set_and_return, setdefault, keep_answer, setnx, set_all, update, surplus, evict_all,
  fix_capacity, set_capacity,
}
use python_ctools.CacheMap.Bounded.{IsValid, evict-IsValid}
use python_ctools.CacheMap.Capacity.{set_capacity_lem}
use python_ctools.CacheMap.Invariant.{visit-IsValid, set_item-IsValid, del_item-IsValid}

module _ {ℓ} {K V : Type ℓ} (dec : Discrete K) (hashable : K → Bool) (rand_max : ℕ) (py_none : V)
    (end_pos : Dict K V → ℕ) (from_pos : ℕ → Dict K V → Dict K V) where
  -- A callback of `setnx` that leaves a valid map valid.
  abbrev pub Keeps : (K → CacheMap K V → CacheMap K V × Result V) → Type ℓ
  Keeps callback =
      (key : K) (self : CacheMap K V) → IsValid dec self → IsValid dec (callback key self).0

  pub pop-IsValid :
      (self : CacheMap K V) (key : K) (default : Option V)
      → IsValid dec self
      → IsValid dec (pop dec hashable rand_max py_none self key default).0
  unfolding pop
  pop-IsValid self key default v = ground (arith, del_item-IsValid dec hashable rand_max self key v)

  pub ass_sub-IsValid :
      (self : CacheMap K V) (key : K) (value : Option V) (now later : ℕ) (outputs : List ℕ)
      → IsValid dec self
      → IsValid dec (ass_sub dec hashable rand_max self key value now later outputs).0
  unfolding ass_sub
  ass_sub-IsValid self key none now later outputs v =
      ground (arith, del_item-IsValid dec hashable rand_max self key v)
  ass_sub-IsValid self key (some value) now later outputs v =
      set_item-IsValid dec hashable rand_max self key value now later outputs v

  pub popitem-IsValid :
      (self : CacheMap K V) (now : ℕ)
      → IsValid dec self
      → IsValid dec (popitem dec hashable rand_max self now).0
  unfolding popitem Dict.lookup
  popitem-IsValid self now v = elim (List-cases self.dict) [
    | inl e ↦ ground (arith, v)
    | inr (first, rest, e) ↦ elim (Option-cases (Dict.get_item dec first.0 self.dict)) [
      | inl missing ↦ ground (arith, v)
      | inr (entry, found) ↦
          let visited : CacheMap K V = visit dec hashable rand_max self first.0 entry now in
          let kept : IsValid dec visited =
            visit-IsValid dec hashable rand_max self first.0 entry now v found in
          ground (arith, v, found, del_item-IsValid dec hashable rand_max visited first.0 kept)
    ]
  ]

  set_and_return-IsValid :
      (self : CacheMap K V) (key : K) (value : V) (now later : ℕ) (outputs : List ℕ)
      → IsValid dec self
      → IsValid dec (set_and_return dec hashable rand_max self key value now later outputs).0
  unfolding set_and_return
  set_and_return-IsValid self key value now later outputs v =
      ground (arith, set_item-IsValid dec hashable rand_max self key value now later outputs v)

  pub setdefault-IsValid :
      (self : CacheMap K V) (key : K) (default : Option V) (now later : ℕ) (outputs : List ℕ)
      → IsValid dec self
      → IsValid dec (setdefault dec hashable rand_max py_none self key default now later outputs).0
  unfolding setdefault Dict.lookup
  setdefault-IsValid self key default now later outputs v =
      elim (Option-cases (Dict.get_item dec key self.dict)) [
        | inr (entry, found) ↦
            ground (arith, v, visit-IsValid dec hashable rand_max self key entry now v found)
        | inl missing ↦
            ground (
              arith,
              v,
              set_and_return-IsValid self key (get_or default py_none) now later outputs v,
            )
      ]

  keep_answer-IsValid :
      (self : CacheMap K V) (answer : Result V) (key : K) (now later : ℕ) (outputs : List ℕ)
      → IsValid dec self
      → IsValid dec (keep_answer dec hashable rand_max self answer key now later outputs).0
  unfolding keep_answer
  keep_answer-IsValid self (ok value) key now later outputs v =
      set_and_return-IsValid self key value now later outputs v
  keep_answer-IsValid self (raise e) key now later outputs v = v
  keep_answer-IsValid self (fault f) key now later outputs v = v

  pub setnx-IsValid :
      (callback : K → CacheMap K V → CacheMap K V × Result V)
      → Keeps callback
      → (self : CacheMap K V) (key : K) (now later : ℕ) (outputs : List ℕ) → IsValid dec self
      → IsValid dec (setnx dec hashable rand_max self key callback now later outputs).0
  unfolding setnx
  setnx-IsValid callback keeps self key now later outputs v =
      elim (Option-cases (Dict.get_item dec key self.dict)) [
        | inr (entry, found) ↦
            ground (arith, visit-IsValid dec hashable rand_max self key entry now v found)
        | inl missing ↦ ground (
          arith,
          keep_answer-IsValid (callback key self).0 (callback key self).1 key now later outputs
              (keeps key self v),
        )
      ]

  -- A call and, if it succeeds, another one on the map and the outputs that it leaves.
  abbrev and_then :
      CacheMap K V × Result (List ℕ)
      → (List ℕ → CacheMap K V × Result (List ℕ))
      → CacheMap K V × Result (List ℕ)
  and_then (self', stored) next = elim stored [
    | ok rest ↦ next rest
    | raise e ↦ (self', raise e)
    | fault f ↦ (self', fault f)
  ]

  and_then-IsValid :
      (out : CacheMap K V × Result (List ℕ)) (next : List ℕ → CacheMap K V × Result (List ℕ))
      → IsValid dec out.0
      → ((rest : List ℕ) → IsValid dec (next rest).0)
      → IsValid dec (and_then out next).0
  and_then-IsValid (self', ok rest) next v w = w rest
  and_then-IsValid (self', raise e) next v w = v
  and_then-IsValid (self', fault f) next v w = v

  set_all-IsValid :
      (clock : ℕ → ℕ) (n : ℕ) (self : CacheMap K V) (entries : Dict K V) (outputs : List ℕ)
      → IsValid dec self
      → IsValid dec (set_all dec hashable rand_max clock n self entries outputs).0
  unfolding set_all
  set_all-IsValid clock n self [] outputs v = v
  set_all-IsValid clock n self ((key, value) ∷ entries) outputs v =
      let out : CacheMap K V × Result (List ℕ) =
        set_item dec hashable rand_max self key value (clock n) (clock (n + 1)) outputs in
      let kept : IsValid dec out.0 =
        set_item-IsValid dec hashable rand_max self key value (clock n) (clock (n + 1)) outputs v in
      and_then-IsValid out (λ rest. set_all dec hashable rand_max clock (n + 2) out.0 entries rest)
        kept (λ rest. set_all-IsValid clock (n + 2) out.0 entries rest kept)

  pub update-IsValid :
      (clock : ℕ → ℕ) (self : CacheMap K V) (arg kwargs : Option (Dict K V)) (outputs : List ℕ)
      → IsValid dec self
      → IsValid dec (update dec hashable rand_max end_pos from_pos clock self arg kwargs outputs).0
  unfolding update
  update-IsValid clock self none none outputs v = v
  update-IsValid clock self none (some kwargs) outputs v =
      set_all-IsValid clock 0 self (from_pos 0 kwargs) outputs v
  update-IsValid clock self (some arg) none outputs v =
      set_all-IsValid clock 0 self (from_pos 0 arg) outputs v
  update-IsValid clock self (some arg) (some kwargs) outputs v =
      let out : CacheMap K V × Result (List ℕ) =
        set_all dec hashable rand_max clock 0 self (from_pos 0 arg) outputs in
      let kept : IsValid dec out.0 = set_all-IsValid clock 0 self (from_pos 0 arg) outputs v in
      let n : ℕ = 2 * length (from_pos 0 arg) in
      and_then-IsValid out
        (λ rest. set_all dec hashable rand_max clock n out.0 (from_pos (end_pos arg) kwargs) rest)
        kept (λ rest. set_all-IsValid clock n out.0 (from_pos (end_pos arg) kwargs) rest kept)

  evict_all-IsValid :
      (rounds : ℕ) (self : CacheMap K V) (now : ℕ) (outputs : List ℕ)
      → IsValid dec self
      → IsValid dec (evict_all dec hashable rand_max rounds self now outputs).0
  unfolding evict_all
  evict_all-IsValid zero self now outputs v = v
  evict_all-IsValid (suc rounds) self now outputs v =
      let out : CacheMap K V × Result (List ℕ) = evict dec rand_max self now outputs in
      let kept : IsValid dec out.0 = evict-IsValid dec hashable rand_max self now outputs v in
      and_then-IsValid out (λ rest. evict_all dec hashable rand_max rounds out.0 now rest) kept
        (λ rest. evict_all-IsValid rounds out.0 now rest kept)

  -- a capacity is set only after evictions that all succeeded
  fix_capacity_starved :
      (out : CacheMap K V × Result (List ℕ)) (cap : ℕ) {f : Fault}
      → (fix_capacity dec hashable rand_max out cap).1 ≡ fault f
      → (fix_capacity dec hashable rand_max out cap).0 ≡ out.0
  unfolding fix_capacity
  fix_capacity_starved (self', ok rest) cap e = cc
  fix_capacity_starved (self', raise x) cap e = refl
  fix_capacity_starved (self', fault f) cap e = refl

  pub set_capacity-IsValid :
      (self : CacheMap K V) (arg : Option ℤ) (now : ℕ) (outputs : List ℕ)
      → IsValid dec self
      → length self.dict < 2 ^ 31
      → IsValid dec (set_capacity dec hashable rand_max self arg now outputs).0
  unfolding set_capacity
  set_capacity-IsValid self none now outputs v small = v
  set_capacity-IsValid self (some (negsuc n)) now outputs v small = v
  set_capacity-IsValid self (some (pos zero)) now outputs v small = v
  set_capacity-IsValid self (some (pos (suc n))) now outputs v small =
      let r : ℕ =
        if ltb (suc n) self.capacity && ltb (suc n) (length self.dict)
        then surplus (length self.dict) (suc n)
        else 0 in
      elim (set_capacity_lem dec hashable rand_max self n now outputs v small) [
        | inl (done, kept, capped) ↦ kept
        | inr (m, f, many, bound, failed, because) ↦
            rw
              (fix_capacity_starved (evict_all dec hashable rand_max r self now outputs) (suc n)
                failed)
              (evict_all-IsValid r self now outputs v)
      ]
