-- ===== src/Toss/Cache.antt =====
-- What the cache of core/toss/market.py holds.

use mathlib.Core.Path.{subst⁻¹, subst}
use mathlib.Core.List.{Memᴰ}
use toss_invest_ai.Prelude.{
  ℕ, ◌+◌, ◌*◌, String, Option, none, some, List, ◌∷◌, ◌≡◌, refl, ap, sym, ◌∙◌, ◌==◌,
  string_equality, arith, Bool-cases, Option-cases, inl, inr, ◌<◌, ◌⊎◌,
}
use toss_invest_ai.Models.{Result, ok, err, or_error, value_error}
use toss_invest_ai.Toss.Link.{Group, Expiring, current}
use toss_invest_ai.Toss.Client.{request}
use toss_invest_ai.Toss.Calls.{
  Connection, Call, Details, Service, set_key, call, cached, given, ◌>>=◌, kept,
}
use toss_invest_ai.Toss.Lifetimes.{lifetime}
use toss_invest_ai.Gateway.Json.{Json, Python}

-- What a call that asked the exchange was answered, for how long it is kept, and when.
pub record Fetched (F : Type 0) : Type 0 where
  pub key : String
  pub value : Json F
  pub seconds : ℕ
  pub at : ℕ

module _ {F : Type 0} where
  abbrev pub added :
      String → ℕ → ℕ → Option String → Result (Json F) → List (Fetched F) → List (Fetched F)
  added key seconds now none (ok v) log =
      record { key = key; value = v; seconds = seconds; at = now } ∷ log
  added key seconds now _ _ log = log

  -- The answers so far after a call that may have used the cache.
  abbrev pub recorded :
      String → ℕ → Connection → Result (Json F) → Connection → List (Fetched F) → List (Fetched F)
  recorded key seconds c r c' log =
      added key seconds c'.link.now (current c.link.now (c.cache key)) r log

  -- An earlier answer for this key, so many seconds old at most.
  pub record IsRecent (seconds : ℕ) (key : String) (v : Json F) (now : ℕ) (log : List (Fetched F))
      : Type 0 where
    pub entry : Fetched F
    pub member : Memᴰ entry log
    pub same_key : entry.key ≡ key
    pub same_value : entry.value ≡ v
    pub recent : now < entry.at + seconds * 1_000

  -- The answer of the exchange to this call.
  abbrev pub IsAsked : Call (Json F) → Json F → Connection → Type 0
  IsAsked fetch v c = (c1 : Connection) × (fetch c ≡ some (ok v, c1))

module _ {F : Type 0} (py : Python F) (s : Service F) where
  pub record IsRecorded (log : List (Fetched F)) (key : String) (e : Expiring String) : Type 0 where
    pub entry : Fetched F
    pub member : Memᴰ entry log
    pub same_key : entry.key ≡ key
    pub same_text : e.value ≡ s.dumps entry.value
    pub expiry : e.expires ≡ entry.at + entry.seconds * 1_000
    pub span : entry.seconds ≡ lifetime key

  abbrev pub IsKept : Connection → List (Fetched F) → Type 0
  IsKept c log = (key : String) (e : Expiring String) → c.cache key ≡ some e → IsRecorded log key e

  abbrev pub KeepsCache : Call (Json F) → Type 0
  KeepsCache m = (c c' : Connection) (r : Result (Json F)) → m c ≡ some (r, c') → c'.cache ≡ c.cache

  pub call-KeepsCache :
      (details : Details F) (g : Group) (path : String) → KeepsCache (call py s details g path)
  unfolding call
  call-KeepsCache details g path c c' r e =
      elim (Option-cases (request (s.network details) s.fuel g path c.link)) [
        | inl missing ↦ ground (arith, e, missing)
        | inr (q, found) ↦ ground (arith, e, found)
      ]

  pub then-KeepsCache :
      (m : Call (Json F)) (k : Json F → Result (Json F))
      → KeepsCache m
      → KeepsCache (m >>= λ a. given (k a))
  then-KeepsCache m k keeps c c' r e = elim (Option-cases (m c)) [
    | inl missing ↦ ground (arith, e, missing)
    | inr ((ok a, c1), found) ↦ ground (arith, e, found, keeps c c1 (ok a) found)
    | inr ((err x, c1), found) ↦ ground (arith, e, found, keeps c c1 (err x) found)
  ]

  weaker :
      (log : List (Fetched F)) (n : Fetched F) (key : String) (e : Expiring String)
      → IsRecorded log key e
      → IsRecorded (n ∷ log) key e
  weaker log n key e k = record {
    entry = k.entry;
    member = Memᴰ.tail k.member;
    same_key = k.same_key;
    same_text = k.same_text;
    expiry = k.expiry;
    span = k.span;
  }

  set-IsKept :
      (key : String) (seconds : ℕ) (v : Json F) (c : Connection) (log : List (Fetched F))
      → seconds ≡ lifetime key
      → IsKept c log
      → IsKept
          (set_key key (s.dumps v) seconds c)
          (record { key = key; value = v; seconds = seconds; at = c.link.now } ∷ log)
  set-IsKept key seconds v c log span keeps k e found = elim (Bool-cases (k == key)) [
    | inl same ↦
        let eq : k ≡ key = (string_equality.compare_iff k key).0 same in
        record {
          entry = record { key = key; value = v; seconds = seconds; at = c.link.now };
          member = Memᴰ.head refl;
          same_key = sym eq;
          same_text = ground (arith, found, same);
          expiry = ground (arith, found, same);
          span = subst⁻¹ (λ h. seconds ≡ lifetime h) eq span;
        }
    | inr other ↦ weaker log _ k e (keeps k e (ground (arith, found, other)))
  ]

  abbrev Step : Type 0
  Step = Result (Json F) × Connection

  some_inj : {a b : Step} → some a ≡ some b → a ≡ b
  some_inj e = cc e

  -- The cache of the second connection, with the answers that a step from the first adds.
  abbrev StepIsKept : String → ℕ → Option String → List (Fetched F) → Step → Type 0
  StepIsKept key seconds o log q = IsKept q.1 (added key seconds q.1.link.now o q.0 log)

  pub same-IsKept :
      (c c' : Connection) (log : List (Fetched F))
      → c'.cache ≡ c.cache
      → IsKept c log
      → IsKept c' log
  same-IsKept c c' log same keeps k e found = keeps k e (ground (arith, found, same))

  fetched-IsKept :
      (key : String) (seconds : ℕ) (c : Connection) (q : Option Step) (p : Step)
      (log : List (Fetched F))
      → seconds ≡ lifetime key
      → ((r : Result (Json F)) (c1 : Connection) → q ≡ some (r, c1) → c1.cache ≡ c.cache)
      → IsKept c log
      → ((λ (d : Connection). q) >>= kept py s key seconds) c ≡ some p
      → StepIsKept key seconds none log p
  fetched-IsKept key seconds c none p log span same keeps e = let bad : ⊥ = cc e in elim bad [ ]
  fetched-IsKept key seconds c (some (err x, c1)) p log span same keeps e =
      subst (StepIsKept key seconds none log) (some_inj e)
        (same-IsKept c c1 log (same (err x) c1 refl) keeps)
  fetched-IsKept key seconds c (some (ok v, c1)) p log span same keeps e =
      subst (StepIsKept key seconds none log) (some_inj e)
        (set-IsKept key seconds v c1 log span (same-IsKept c c1 log (same (ok v) c1 refl) keeps))

  from-IsKept :
      (key : String) (seconds : ℕ) (fetch : Call (Json F)) (o : Option String) (c : Connection)
      (p : Step) (log : List (Fetched F))
      → seconds ≡ lifetime key
      → KeepsCache fetch
      → IsKept c log
      → (elim o [
        | some text ↦ some (or_error value_error (py.loads text), c)
        | none ↦ (fetch >>= kept py s key seconds) c
      ])
        ≡ some p
      → StepIsKept key seconds o log p
  from-IsKept key seconds fetch (some text) c p log span same keeps e =
      subst (StepIsKept key seconds (some text) log) (some_inj e) keeps
  from-IsKept key seconds fetch none c p log span same keeps e =
      fetched-IsKept key seconds c (fetch c) p log span (λ r c1. same c c1 r) keeps e

  pub cached-IsKept :
      (key : String) (seconds : ℕ) (fetch : Call (Json F)) (c c' : Connection) (r : Result (Json F))
      (log : List (Fetched F))
      → seconds ≡ lifetime key
      → KeepsCache fetch
      → IsKept c log
      → cached py s key seconds fetch c ≡ some (r, c')
      → IsKept c' (recorded key seconds c r c' log)
  unfolding cached
  cached-IsKept key seconds fetch c c' r log span same keeps e =
      from-IsKept key seconds fetch (current c.link.now (c.cache key)) c (r, c') log span same keeps
        e

  current_value :
      {A : Type 0} (now : ℕ) (o : Option (Expiring A)) (a : A)
      → current now o ≡ some a
      → (e : Expiring A) × (o ≡ some e) × (e.value ≡ a) × (now < e.expires)
  current_value now none a h = let bad : ⊥ = cc h in elim bad [ ]
  current_value now (some e) a h = (e, refl, ground (arith, h), ground (arith, h))

  reread-IsRecent :
      (log : List (Fetched F))
      → ((u : Fetched F) → Memᴰ u log → py.loads (s.dumps u.value) ≡ some u.value)
      → (seconds now : ℕ) (key text : String) (v : Json F) (e : Expiring String)
      → IsRecorded log key e
      → seconds ≡ lifetime key
      → e.value ≡ text
      → now < e.expires
      → or_error value_error (py.loads text) ≡ ok v
      → IsRecent seconds key v now log
  reread-IsRecent log rereads seconds now key text v e k span value early read = record {
    entry = k.entry;
    member = k.member;
    same_key = k.same_key;
    same_value =
        let loaded : py.loads text ≡ some k.entry.value =
          ap py.loads (sym value ∙ k.same_text) ∙ rereads k.entry k.member in
        cc (loaded, read);
    recent =
        let same : k.entry.seconds ≡ seconds = k.span ∙ sym span in
        omega (arith, early, k.expiry, same);
  }

  pub answered-IsFresh :
      (log : List (Fetched F))
      → ((u : Fetched F) → Memᴰ u log → py.loads (s.dumps u.value) ≡ some u.value)
      → (key : String) (seconds : ℕ) (fetch : Call (Json F)) (c c' : Connection) (v : Json F)
      → seconds ≡ lifetime key
      → IsKept c log
      → cached py s key seconds fetch c ≡ some (ok v, c')
      → IsAsked fetch v c ⊎ IsRecent seconds key v c.link.now log
  unfolding cached
  answered-IsFresh log rereads key seconds fetch c c' v span keeps h =
      elim (Option-cases (current c.link.now (c.cache key))) [
        | inr (text, found) ↦
            let (e, there, value, early) = current_value c.link.now (c.cache key) text found in
            inr (
              reread-IsRecent log rereads seconds c.link.now key text v e (keeps key e there) span
                value early (ground (arith, h, found)))
        | inl missing ↦ elim (Option-cases (fetch c)) [
          | inl stuck ↦ ground (arith, h, missing, stuck)
          | inr ((err x, c1), got) ↦ ground (arith, h, missing, got)
          | inr ((ok u, c1), got) ↦ inl (c1, ground (arith, h, missing, got))
        ]
      ]
