-- ===== src/Resolver/Races.antt =====
-- resolver.go: calls of Resolve at the same time. Other calls can run between its lookup, its choice
-- by the ring and its write to the cache, so a call is three steps here.
use tempura.Common.{
  ℕ, zero, suc, ◌≡◌, ◌≢◌, ◌∙◌, ap, refl, false, some, List, [], ◌∷◌, ◌++◌, arith, Text, All, ◌⊎◌,
  inl, inr, if◌then◌else◌, Bool-cases,
}
use tempura.Common.Keys.{text_eq, text_eq_iff, text_eq_refl}
use tempura.Redis.{Redis, value, missing}
use tempura.Mappings
use tempura.Ring.Hash.{Murmur3}
use tempura.Ring.{get_slot}
use tempura.VirtualNamespace.{VirtualNamespace}
use tempura.Registry
use tempura.Registry.{VirtualNamespaceRegistry}
use tempura.Resolver.{Payload, Resolver, resolve, allocate}
use tempura.Resolver.Sticky.{IsUp}

-- how far a call is: not begun, past a lookup that found nothing, past the choice of a slot, or
-- returned
pub data Phase : Type 0 where
  begun : Phase
  missed : Phase
  chosen : Text → Phase
  returned : Text → Phase

module _ (redis : Redis) ⦃murmur3 : Murmur3⦄ (v : VirtualNamespace) (key : Text) where
  unfoldable pub look_up : Resolver redis → Phase × Resolver redis
  look_up r =
      let (phys_ns, cache) = Mappings.get redis key r.cache in
      (if text_eq phys_ns [] then missed else returned phys_ns, record r { cache = cache })

  -- the next step of a call
  unfoldable pub advance : Phase → Resolver redis → Phase × Resolver redis
  unfolding look_up
  advance begun r = look_up r
  advance missed r =
      let phys_ns = get_slot v.ring key in
      (chosen phys_ns, record r { allocated = r.allocated ++ (phys_ns ∷ []) })
  advance (chosen phys_ns) r =
      (returned phys_ns, record r { cache = Mappings.put redis key phys_ns r.cache })
  advance (returned phys_ns) r = (returned phys_ns, r)

  -- a call by itself, from its beginning
  abbrev alone : Resolver redis → Phase × Resolver redis
  alone r = let (p, r1) = advance begun r in let (q, r2) = advance p r1 in advance q r2

  -- The steps of one call are Resolve, whatever the cache holds.
  pub advance-resolve :
      (payload : Payload) (registry : VirtualNamespaceRegistry) (r : Resolver redis)
      → payload.workflow_id ≡ key
      → Registry.resolve payload.virtual_namespace registry ≡ some v
      → ((alone r).0 ≡ returned (resolve redis payload registry r).0.0)
        × ((alone r).1 ≡ (resolve redis payload registry r).1)
  unfolding advance look_up resolve allocate
  advance-resolve payload registry r same known =
      elim (Bool-cases (text_eq (Mappings.get redis key r.cache).0 [])) [
        | inl blank ↦ rw (same, known, blank) (refl, refl)
        | inr full ↦ rw (same, known, full) (refl, refl)
      ]

  -- any one of the calls takes its next step
  pub data Step : List Phase × Resolver redis → List Phase × Resolver redis → Type 0 where
    step :
        (before after : List Phase) (p : Phase) (r : Resolver redis)
        → Step (before ++ (p ∷ after), r) (before ++ ((advance p r).0 ∷ after), (advance p r).1)

  pub data Steps : List Phase × Resolver redis → List Phase × Resolver redis → Type 0 where
    stay : {s : List Phase × Resolver redis} → Steps s s
    go : {s t u : List Phase × Resolver redis} → Step s t → Steps t u → Steps s u

  -- what the ring chose
  abbrev pub Chosen : Phase → Type 0
  Chosen begun = Unit {0}
  Chosen missed = Unit {0}
  Chosen (chosen phys_ns) = phys_ns ≡ get_slot v.ring key
  Chosen (returned phys_ns) = phys_ns ≡ get_slot v.ring key

  abbrev Held : Resolver redis → Type 0
  Held r =
      IsUp redis r
      × ((redis.get r.cache.client key ≡ missing)
          ⊎ (redis.get r.cache.client key ≡ value (get_slot v.ring key)))

  module _ (named : get_slot v.ring key ≢ []) where
    advance-Held :
        (p : Phase) (r : Resolver redis)
        → Held r
        → Chosen p
        → Held (advance p r).1 × Chosen (advance p r).0
    unfolding advance look_up Mappings.get Mappings.put text_eq
    advance-Held begun r (up, inl gone) ok = rw gone ((up, inl gone), tt)
    advance-Held begun r (up, inr held) ok =
        let full : text_eq (get_slot v.ring key) [] ≡ false =
          ground (arith, text_eq_iff (get_slot v.ring key) [], named) in
        rw (held, full) ((up, inr held), refl)
    advance-Held missed r held ok = (held, refl)
    advance-Held (chosen phys_ns) r (up, held) ok = (
      (
        redis.set_up r.cache.client key phys_ns up,
        inr (
            redis.get-set r.cache.client key key phys_ns up
            ∙ (rw (text_eq_refl key) refl ∙ ap value ok)),
      ),
      ok,
    )
    advance-Held (returned phys_ns) r held ok = (held, ok)

    -- the phase at one place, and the list with another there
    at_place :
        (before after : List Phase) (p q : Phase)
        → All Chosen (before ++ (p ∷ after))
        → (Chosen p) × (Chosen q → All Chosen (before ++ (q ∷ after)))
    at_place [] after p q (ok, all) = (ok, λ ok'. (ok', all))
    at_place (b ∷ before) after p q (okb, all) =
        let (ok, put) = at_place before after p q all in (ok, λ ok'. (okb, put ok'))

    abbrev Sound : List Phase × Resolver redis → Type 0
    Sound (phases, r) = Held r × All Chosen phases

    Step-Sound : (s t : List Phase × Resolver redis) → Step s t → Sound s → Sound t
    Step-Sound s t (step before after p r) (held, all) =
        let (ok, put) = at_place before after p (advance p r).0 all in
        let (held', ok') = advance-Held p r held ok in (held', put ok')

    Steps-Sound : (s t : List Phase × Resolver redis) → Steps s t → Sound s → Sound t
    Steps-Sound s t stay sound = sound
    Steps-Sound s t (go {t = m} first rest) sound =
        Steps-Sound m t rest (Step-Sound s m first sound)

    abbrev pub all_begun : ℕ → List Phase
    all_begun zero = []
    all_begun (suc n) = begun ∷ all_begun n

    all_begun-Chosen : (n : ℕ) → All Chosen (all_begun n)
    all_begun-Chosen zero = tt
    all_begun-Chosen (suc n) = (tt, all_begun-Chosen n)

    -- However any number of calls of Resolve for one workflow interleave between their lookup,
    -- their choice and their write, while the ring stays as it is and the server answers, each
    -- that has returned returned the slot of the ring, if that is not the empty text and the cache
    -- did not hold the workflow at first.
    pub Steps-Chosen :
        (n : ℕ) (phases : List Phase) (r r' : Resolver redis)
        → IsUp redis r
        → redis.get r.cache.client key ≡ missing
        → Steps (all_begun n, r) (phases, r')
        → All Chosen phases
    Steps-Chosen n phases r r' up cold steps =
        (Steps-Sound (all_begun n, r) (phases, r') steps ((up, inl cold), all_begun-Chosen n)).1
