-- ===== src/Resolver/Changing.antt =====
-- resolver.go: calls of Resolve at the same time, while the ring of the virtual namespace changes.
use tempura.Common.{
  ℕ, zero, suc, ◌≡◌, ◌∙◌, refl, List, [], ◌∷◌, ◌++◌, Text, All, ◌⊎◌, inl, inr, Bool-cases,
}
use tempura.Common.Keys.{text_eq, text_eq_refl}
use tempura.Redis.{Redis, value, missing}
use tempura.Mappings
use tempura.Ring.Hash.{Murmur3}
use tempura.Ring.{get_slot}
use tempura.VirtualNamespace.{VirtualNamespace}
use tempura.Resolver.{Resolver}
use tempura.Resolver.Sticky.{IsUp}
use tempura.Resolver.Races.{Phase, begun, missed, chosen, returned, look_up, advance}

-- one place of a list, and the list with something else there
at_place :
    (P : Phase → Type 0) (before after : List Phase) (p q : Phase)
    → All P (before ++ (p ∷ after))
    → (P p) × (P q → All P (before ++ (q ∷ after)))
at_place P [] after p q (ok, all) = (ok, λ ok'. (ok', all))
at_place P (b ∷ before) after p q (okb, all) =
    let (ok, put) = at_place P before after p q all in (ok, λ ok'. (okb, put ok'))

All-map : {P Q : Phase → Type 0} → ((p : Phase) → P p → Q p) → (l : List Phase) → All P l → All Q l
All-map f [] all = tt
All-map f (p ∷ l) (ok, all) = (f p ok, All-map f l all)

module _ (redis : Redis) ⦃murmur3 : Murmur3⦄ (key : Text) where
  -- the calls, the resolver, and the forms that the virtual namespace has had, its present one first
  pub record State : Type 0 where
    pub phases : List Phase
    pub resolver : Resolver redis
    pub present : VirtualNamespace
    pub past : List VirtualNamespace

  -- a call takes its next step, or the virtual namespace changes
  pub data Step : State → State → Type 0 where
    call :
        (before after : List Phase) (p : Phase) (r : Resolver redis) (v : VirtualNamespace)
        (past : List VirtualNamespace)
        → Step
            (record { phases = before ++ (p ∷ after); resolver = r; present = v; past = past })
            (record {
              phases = before ++ ((advance redis v key p r).0 ∷ after);
              resolver = (advance redis v key p r).1;
              present = v;
              past = past;
            })
    change :
        (s : State) (v : VirtualNamespace)
        → Step s (record s { present = v; past = s.present ∷ s.past })

  pub data Steps : State → State → Type 0 where
    stay : {s : State} → Steps s s
    go : {s t u : State} → Step s t → Steps t u → Steps s u

  -- the slot that one of the virtual namespaces gives to the workflow
  abbrev pub Given : Text → List VirtualNamespace → Type 0
  Given slot [] = ⊥
  Given slot (v ∷ vs) = (slot ≡ get_slot v.ring key) ⊎ Given slot vs

  abbrev pub Among : List VirtualNamespace → Phase → Type 0
  Among vs begun = Unit {0}
  Among vs missed = Unit {0}
  Among vs (chosen slot) = Given slot vs
  Among vs (returned slot) = Given slot vs

  abbrev pub Unanswered : Phase → Type 0
  Unanswered begun = Unit {0}
  Unanswered missed = Unit {0}
  Unanswered (chosen slot) = Unit {0}
  Unanswered (returned slot) = ⊥

  abbrev pub HoldsGiven : Resolver redis → List VirtualNamespace → Type 0
  HoldsGiven r vs = (slot : Text) × (redis.get r.cache.client key ≡ value slot) × Given slot vs

  abbrev pub Accounted : State → Type 0
  Accounted s =
      (All (Among (s.present ∷ s.past)) s.phases)
      × (((redis.get s.resolver.cache.client key ≡ missing) × All Unanswered s.phases)
          ⊎ HoldsGiven s.resolver (s.present ∷ s.past))

  module _ (v : VirtualNamespace) (past : List VirtualNamespace) where
    -- what a step of one call leaves: the call's answer, the server, and what the cache holds
    abbrev Leaves : Phase → Resolver redis → Phase × Resolver redis → Type 0
    Leaves p before (q, r) =
        (Among (v ∷ past) q)
        × (IsUp redis r)
        × (((redis.get before.cache.client key ≡ missing)
              × (redis.get r.cache.client key ≡ missing)
              × (Unanswered p → Unanswered q))
            ⊎ HoldsGiven r (v ∷ past))

    advance-Leaves :
        (p : Phase) (r : Resolver redis)
        → IsUp redis r
        → Among (v ∷ past) p
        → (redis.get r.cache.client key ≡ missing) ⊎ HoldsGiven r (v ∷ past)
        → Leaves p r (advance redis v key p r)
    unfolding advance look_up Mappings.get Mappings.put text_eq
    advance-Leaves begun r up ok (inl gone) = rw gone (tt, up, inl (refl, gone, λ u. tt))
    advance-Leaves begun r up ok (inr (slot, held, given)) = elim (Bool-cases (text_eq slot [])) [
      | inl blank ↦ rw (held, blank) (tt, up, inr (slot, held, given))
      | inr full ↦ rw (held, full) (given, up, inr (slot, held, given))
    ]
    advance-Leaves missed r up ok (inl gone) = (inl refl, up, inl (gone, gone, λ u. tt))
    advance-Leaves missed r up ok (inr held) = (inl refl, up, inr held)
    advance-Leaves (chosen slot) r up ok held = (
      ok,
      redis.set_up r.cache.client key slot up,
      inr (slot, redis.get-set r.cache.client key key slot up ∙ rw (text_eq_refl key) refl, ok),
    )
    advance-Leaves (returned slot) r up ok (inl gone) = (ok, up, inl (gone, gone, λ u. u))
    advance-Leaves (returned slot) r up ok (inr held) = (ok, up, inr held)

  Among-grows :
      (w : VirtualNamespace) (vs : List VirtualNamespace) (p : Phase)
      → Among vs p
      → Among (w ∷ vs) p
  Among-grows w vs begun ok = tt
  Among-grows w vs missed ok = tt
  Among-grows w vs (chosen slot) ok = inr ok
  Among-grows w vs (returned slot) ok = inr ok

  abbrev Sound : State → Type 0
  Sound s = IsUp redis s.resolver × Accounted s

  Step-Sound : (s t : State) → Step s t → Sound s → Sound t
  Step-Sound _ _ (change s w) (up, (all, inl still)) =
      (up, (All-map (Among-grows w (s.present ∷ s.past)) s.phases all, inl still))
  Step-Sound _ _ (change s w) (up, (all, inr (slot, held, given))) =
      (up, (All-map (Among-grows w (s.present ∷ s.past)) s.phases all, inr (slot, held, inr given)))
  Step-Sound _ _ (call before after p r v past) (up, (all, inl (gone, waits))) =
      let q = (advance redis v key p r).0 in
      let (ok, put) = at_place (Among (v ∷ past)) before after p q all in
      let (wait, put_wait) = at_place Unanswered before after p q waits in
      let (ok', up', left) = advance-Leaves v past p r up ok (inl gone) in
      (
        up',
        (
          put ok',
          elim left [
            | inl (was, gone', still) ↦ inl (gone', put_wait (still wait))
            | inr held ↦ inr held
          ],
        ),
      )
  Step-Sound _ _ (call before after p r v past) (up, (all, inr (slot, held, given))) =
      let q = (advance redis v key p r).0 in
      let (ok, put) = at_place (Among (v ∷ past)) before after p q all in
      let (ok', up', left) = advance-Leaves v past p r up ok (inr (slot, held, given)) in
      (up', (put ok', elim left [ inl (was, gone', still) ↦ cc (was, held) | inr now ↦ inr now ]))

  Steps-Sound : (s t : State) → Steps s t → Sound s → Sound t
  Steps-Sound s t stay sound = sound
  Steps-Sound s t (go {t = m} first rest) sound = Steps-Sound m t rest (Step-Sound s m first sound)

  abbrev pub new_calls : ℕ → List Phase
  new_calls zero = []
  new_calls (suc n) = begun ∷ new_calls n

  begin_calls : (vs : List VirtualNamespace) (n : ℕ) → All (Among vs) (new_calls n)
  begin_calls vs zero = tt
  begin_calls vs (suc n) = (tt, begin_calls vs n)

  begin_waiting : (n : ℕ) → All Unanswered (new_calls n)
  begin_waiting zero = tt
  begin_waiting (suc n) = (tt, begin_waiting n)

  -- However any number of calls of Resolve for one workflow that the cache does not hold
  -- interleave between their lookup, their choice and their write with changes of the virtual
  -- namespace, while the server answers, each call that has chosen or returned a slot has one that
  -- the virtual namespace gave to the workflow in one of its forms; and the cache holds such a
  -- slot, or it holds nothing and no call has returned.
  pub Steps-Accounted :
      (n : ℕ) (r : Resolver redis) (v : VirtualNamespace) (t : State)
      → IsUp redis r
      → redis.get r.cache.client key ≡ missing
      → Steps (record { phases = new_calls n; resolver = r; present = v; past = [] }) t
      → Accounted t
  Steps-Accounted n r v t up cold steps =
      let (up', accounted) =
        Steps-Sound _ t steps (up, (begin_calls (v ∷ []) n, inl (cold, begin_waiting n))) in
      accounted
