-- ===== src/World/Actions.antt =====
-- Queries and actions over the state.
use toss_invest_ai.Prelude.{Option, ◌∷◌, ◌≡◌, refl}
use toss_invest_ai.Models.{Result, ok, err, Error, Mode, Market}
use toss_invest_ai.World.Rows.{Database}
use toss_invest_ai.World.Core.{World, Payload}

abbrev pub Query : Type 0 → Type 0 → Type 0
Query F A = World F → Result A

abbrev pub Action : Type 0 → Type 0 → Type 0
Action F A = World F → Result A × World F

module _ {F A : Type 0} where
  abbrev pub pure : A → Action F A
  pure a w = (ok a, w)

  abbrev pub raise : Error → Action F A
  raise e w = (err e, w)

  abbrev pub query : Query F A → Action F A
  query q w = (q w, w)

  abbrev pub lift : Result A → Action F A
  lift r w = (r, w)

infixl 5 ◌>>=◌ ◌>>◌
abbrev pub ◌>>=◌ : {F A B : Type 0} → Action F A → (A → Action F B) → Action F B
◌>>=◌ m k w = let (r, w') = m w in elim r [ ok a ↦ k a w' | err e ↦ (err e, w') ]

abbrev pub ◌>>◌ : {F A B : Type 0} → Action F A → Action F B → Action F B
m >> k = m >>= λ _. k

abbrev pub modify : {F : Type 0} → (World F → World F) → Action F (Unit {0})
modify f w = (ok tt, f w)

abbrev pub with_database : {F : Type 0} → (Database F → Database F) → Action F (Unit {0})
with_database f w = (ok tt, record w { database = f w.database })

-- `publish_event` of core/events/publisher.py
abbrev pub publish_event : {F : Type 0} → Mode → Option Market → Payload F → Action F (Unit {0})
publish_event mode market payload w = (
  ok tt,
  record w {
    events =
        record { mode = mode; market = market; payload = payload; published_at = w.now } ∷ w.events;
  },
)

module _ {F : Type 0} where
  abbrev pub const : {A : Type 0} → Result A × World F → Action F A
  const q w = q

  bind_by :
      {A B : Type 0} (k : A → Action F B) (P : World F → Type 0) (q : Result A × World F)
      → ((e : Error) → q.0 ≡ err e → P q.1)
      → ((a : A) → q.0 ≡ ok a → P (k a q.1).1)
      → P ((const q >>= k) q.1).1
  bind_by k P (ok a, w) f g = g a refl
  bind_by k P (err e, w) f g = f e refl

  -- A property of the state after two steps.
  pub bind-cases :
      {A B : Type 0} (m : Action F A) (k : A → Action F B) (P : World F → Type 0) (w : World F)
      → ((e : Error) → (m w).0 ≡ err e → P (m w).1)
      → ((a : A) → (m w).0 ≡ ok a → P (k a (m w).1).1)
      → P ((m >>= k) w).1
  bind-cases m k P w f g = bind_by k P (m w) f g
