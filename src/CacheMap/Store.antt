-- ===== src/CacheMap/Store.antt =====
-- What a store leaves of a valid map.
use python_ctools.Base.{
  ℕ, ◌+◌, ◌/◌, ◌≤◌, ◌<◌, ◌≡◌, ◌⊎◌, inl, inr, refl, Bool, true, none, some, Option-cases, List,
  arith, length, Result, ok, fault, Fault, dec_lt,
}
use python_ctools.Base.Dict
use python_ctools.Base.Dict.{
  Dict, Distinct, del_item-Distinct, set_item-Distinct, length-del_item, length-set_item_new,
  length-set_item_old, get_item-set_item, get_item-del_item,
}
use python_ctools.CacheMap.{Entry, CacheMap, entry_new}
use python_ctools.CacheMap.Methods.{set_item, add_entry, evict_and_add}
use python_ctools.CacheMap.Random.{DrawFault}
use python_ctools.CacheMap.Bounded.{IsValid, evict_one}

module _ {ℓ} {K V : Type ℓ} (dec : Discrete K) (hashable : K → Bool) (rand_max : ℕ) where
  -- A store that succeeded: the map is valid, and the key is bound to the value.
  abbrev pub Stored : CacheMap K V × Result (List ℕ) → K → V → Type ℓ
  Stored out key value =
      IsValid dec out.0
      × ((rest : List ℕ) × (out.1 ≡ ok rest))
      × ((entry : Entry V) × (Dict.get_item dec key out.0.dict ≡ some entry)
          × (entry.ma_value ≡ value))

  -- The three ways of a store. The key has an entry, whose value is replaced where it stands.
  abbrev pub Renewed : CacheMap K V → K → V → List ℕ → CacheMap K V × Result (List ℕ) → Type ℓ
  Renewed self key value outputs out =
      (entry : Entry V) × (Dict.get_item dec key self.dict ≡ some entry)
      × (out ≡ (
        record self { dict = Dict.set_item dec key (record entry { ma_value = value }) self.dict },
        ok outputs,
      ))

  -- The key is new and there is room: no other entry changes, and no random number is drawn.
  abbrev pub Added : CacheMap K V → K → V → ℕ → List ℕ → CacheMap K V × Result (List ℕ) → Type ℓ
  Added self key value later outputs out =
      (Dict.get_item dec key self.dict ≡ none)
      × (length self.dict < self.capacity)
      × (out ≡ (
        record self { dict = Dict.set_item dec key (entry_new value later) self.dict },
        ok outputs,
      ))

  -- The key is new and the map is full: one key of the map makes room for it.
  abbrev pub Exchanged : CacheMap K V → K → V → ℕ → CacheMap K V × Result (List ℕ) → Type ℓ
  Exchanged self key value later out =
      (Dict.get_item dec key self.dict ≡ none)
      × (length self.dict ≡ self.capacity)
      × ((gone : K) × (rest : List ℕ) × (out ≡ (
        record self {
          dict = Dict.set_item dec key (entry_new value later) (Dict.del_item dec gone self.dict);
        },
        ok rest,
      ))
          × (length (Dict.del_item dec gone self.dict) + 1 ≡ length self.dict))

  -- The key is new, the map is full with 256 entries or more, and a draw failed: nothing changes.
  abbrev pub Refused : CacheMap K V → K → CacheMap K V × Result (List ℕ) → Type ℓ
  Refused self key out =
      (Dict.get_item dec key self.dict ≡ none)
      × (length self.dict ≡ self.capacity)
      × (256 ≤ length self.dict)
      × ((f : Fault) × (out ≡ (self, fault f)) × DrawFault rand_max (length self.dict / 8) f)

  add_entry_done :
      (self : CacheMap K V) (key : K) (value : V) (now : ℕ) (outputs : List ℕ)
      → hashable key ≡ true
      → add_entry dec hashable rand_max self key value now outputs
        ≡ (record self { dict = Dict.set_item dec key (entry_new value now) self.dict }, ok outputs)
  unfolding add_entry Dict.store
  add_entry_done self key value now outputs h = ground (arith, h)

  -- a new entry where there is room
  added-Stored :
      (self : CacheMap K V) (key : K) (value : V) (now : ℕ) (outputs : List ℕ)
      → Distinct dec self.dict
      → length self.dict < self.capacity
      → Dict.get_item dec key self.dict ≡ none
      → Stored
          (record self { dict = Dict.set_item dec key (entry_new value now) self.dict }, ok outputs)
          key
          value
  unfolding entry_new
  added-Stored self key value now outputs distinct room new =
      let entry : Entry V = entry_new value now in
      (
        record {
          distinct = set_item-Distinct dec key entry self.dict distinct;
          positive = omega arith;
          bounded = omega (arith, length-set_item_new dec key entry self.dict new);
        },
        (outputs, refl),
        (entry, ground (arith, get_item-set_item dec key key entry self.dict), refl),
      )

  evict_and_add_stores :
      (self : CacheMap K V) (key : K) (value : V) (now later : ℕ) (outputs : List ℕ)
      → IsValid dec self
      → length self.dict ≡ self.capacity
      → hashable key ≡ true
      → Dict.get_item dec key self.dict ≡ none
      → let out = evict_and_add dec hashable rand_max self key value now later outputs in
        (Stored out key value × Exchanged self key value later out) ⊎ Refused self key out
  unfolding evict_and_add
  evict_and_add_stores self key value now later outputs v full h new =
      elim (evict_one dec hashable rand_max self now outputs (λ e. omega (arith, v.positive))) [
        | inl (gone, rest, done, less) ↦
            let smaller : CacheMap K V = record self { dict = Dict.del_item dec gone self.dict } in
            let step : evict_and_add dec hashable rand_max self key value now later outputs ≡ (
              record smaller { dict = Dict.set_item dec key (entry_new value later) smaller.dict },
              ok rest,
            ) =
              ground (arith, done, add_entry_done smaller key value later rest h) in
            inl (
              rw step (
                  added-Stored smaller key value later rest
                    (del_item-Distinct dec gone self.dict v.distinct) (omega (arith, v.bounded))
                    (ground (arith, get_item-del_item dec gone key self.dict v.distinct))),
              (new, full, (gone, rest, step, less)),
            )
        | inr (many, (f, failed, because)) ↦
            inr (new, full, many, (f, ground (arith, failed), because))
      ]

  -- the update of an entry in place
  replaced-Stored :
      (self : CacheMap K V) (key : K) (value : V) (outputs : List ℕ) (entry : Entry V)
      → IsValid dec self
      → Dict.get_item dec key self.dict ≡ some entry
      → Stored
          (
            record self {
              dict = Dict.set_item dec key (record entry { ma_value = value }) self.dict;
            },
            ok outputs,
          )
          key
          value
  replaced-Stored self key value outputs entry v found =
      let entry' : Entry V = record entry { ma_value = value } in
      (
        record {
          distinct = set_item-Distinct dec key entry' self.dict v.distinct;
          positive = v.positive;
          bounded =
              omega (arith, v.bounded, length-set_item_old dec key entry' entry self.dict found);
        },
        (outputs, refl),
        (entry', ground (arith, get_item-set_item dec key key entry' self.dict), refl),
      )

  -- A store of a hashable key into a valid map does exactly one of four things. If the key has an
  -- entry, it replaces the value there. If the key is new and the map has fewer than `capacity`
  -- entries, it adds an entry and evicts nothing. If the key is new and the map is full, it evicts
  -- one entry and adds the new one; or, with 256 entries or more, a draw of the eviction fails, and
  -- nothing changes: the outputs of `rand()` at hand do not end it, or RAND_MAX is at most an eighth
  -- of the size, or an eighth of the size and one more is no `int`. In the first three the call
  -- succeeds, the key is bound to the value, and the map is valid, so has at most `capacity` entries.
  pub set_item_stores :
      (self : CacheMap K V) (key : K) (value : V) (now later : ℕ) (outputs : List ℕ)
      → IsValid dec self
      → hashable key ≡ true
      → let out = set_item dec hashable rand_max self key value now later outputs in
        (Stored out key value
          × (Renewed self key value outputs out
              ⊎ (Added self key value later outputs out ⊎ Exchanged self key value later out)))
        ⊎ Refused self key out
  unfolding set_item Dict.lookup
  set_item_stores self key value now later outputs v h =
      elim (Option-cases (Dict.get_item dec key self.dict)) [
        | inr (entry, found) ↦
            let done : set_item dec hashable rand_max self key value now later outputs ≡ (
              record self {
                dict = Dict.set_item dec key (record entry { ma_value = value }) self.dict;
              },
              ok outputs,
            ) =
              ground (arith, h, found) in
            inl (
              rw done (replaced-Stored self key value outputs entry v found),
              inl (entry, found, done),
            )
        | inl new ↦ elim (dec_lt (length self.dict) self.capacity) [
          | yes room ↦
              let done : set_item dec hashable rand_max self key value now later outputs ≡ (
                record self { dict = Dict.set_item dec key (entry_new value later) self.dict },
                ok outputs,
              ) =
                ground (arith, h, new, add_entry_done self key value later outputs h) in
              inl (
                rw done (added-Stored self key value later outputs v.distinct room new),
                inr (inl (new, room, done)),
              )
          | no full ↦
              let step : set_item dec hashable rand_max self key value now later outputs
                  ≡ evict_and_add dec hashable rand_max self key value now later outputs =
                ground (arith, h, new) in
              elim (evict_and_add_stores self key value now later outputs v
                (omega (arith, v.bounded)) h new) [
                  | inl (stored, exchanged) ↦ inl (rw step stored, inr (inr (rw step exchanged)))
                  | inr refused ↦ inr (rw step refused)
                ]
        ]
      ]
