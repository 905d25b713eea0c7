-- ===== src/Safety/Approval.antt =====
-- What an approval of the Safety Gate means: all the conditions together.
use toss_invest_ai.Prelude.{true, false, ◌≡◌, refl, ◌⊎◌, inl, inr, ◌↔◌, arith}
use toss_invest_ai.Prelude.Int.{ℤ, pos, ◌≤ℤ◌, ◌<ℤ◌}
use toss_invest_ai.Float.{Float, ◌⊗◌, of_int, decimal, less}
use toss_invest_ai.Models.{
  Market, kr, us, RunMode, sell, amount_order, Order, approve, Result, ok, Result-cases,
  TradeAction,
}
use toss_invest_ai.World.{World, Exchange}
use toss_invest_ai.Store.{get_daily_loss, order_id_exists, has_high_risk_event_today}
use toss_invest_ai.Fund.{get_position_ratio, get_cash_buffer_krw, get_holding_quantity}
use toss_invest_ai.Safety.Gate.{
  check, check_flags, check_loss, check_ratio, check_sellable, check_amount, check_buffer,
  check_warnings, check_open, check_session, check_duplicate, check_event, is_sell,
}

-- A query answered, with an answer that is as required.
abbrev pub Answers : {A : Type 0} → Result A → (A → Type 0) → Type 0
Answers {A} r P = (a : A) × (r ≡ ok a) × P a

abbrev pub IsStopped : {F : Type 0} → World F → Market → Type 0
IsStopped w kr = w.settings.kr_stop ≡ true
IsStopped w us = w.settings.us_stop ≡ true

TradeAction-cases : (a : TradeAction) → (a ≡ sell) ⊎ (is_sell a ≡ false)
TradeAction-cases sell = inl refl
TradeAction-cases _ = inr refl

module _ {F : Type 0} ⦃f : Float F⦄ (x : Exchange F) (o : Order F) (m : RunMode) (w : World F) where
  abbrev half_limit : F
  half_limit = of_int w.settings.max_single_order_krw ⊗ decimal 5 1

  pub record Permits : Type 0 where
    pub quantity_positive : pos 0 <ℤ o.quantity
    pub amount_positive : pos 0 <ℤ o.amount_krw
    pub no_emergency : w.settings.emergency_stop ≡ false
    pub market_runs : ¬ IsStopped w m.market
    pub loss_below : get_daily_loss m w <ℤ w.settings.max_daily_loss_krw
    pub ratio_within :
        Answers
          (get_position_ratio x o.symbol m.mode w)
          (λ r. less w.settings.max_position_ratio r ≡ false)
    pub sale_covered :
        o.action ≡ sell → Answers (get_holding_quantity x o.symbol m.mode w) (λ n. o.quantity ≤ℤ n)
    pub amount_within : o.amount_krw ≤ℤ w.settings.max_single_order_krw
    pub buffer_kept :
        Answers
          (get_cash_buffer_krw x m.mode w)
          (λ b. less b (of_int w.settings.initial_seed_krw ⊗ decimal 5 2) ≡ false)
    pub unrestricted :
        o.market ≡ kr → Answers (x.warnings o.symbol w) (λ s. s.has_restriction ≡ false)
    pub market_open : Answers (x.calendar o.market w) (λ c. c.is_open ≡ true)
    pub session_regular :
        o.market ≡ us
        → o.order_type ≡ amount_order
        → Answers (x.calendar us w) (λ c. c.is_regular_session ≡ true)
    pub id_new : order_id_exists o.client_order_id w ≡ false
    pub event_within :
        has_high_risk_event_today w ≡ true → less half_limit (of_int o.amount_krw) ≡ false

  check_event_iff :
      (check_event x o w ≡ ok approve)
      ↔ (has_high_risk_event_today w ≡ true → less half_limit (of_int o.amount_krw) ≡ false)
  unfolding check_event
  check_event_iff = ground arith

  check_session_iff : (check_session x o w ≡ ok approve) ↔ (
      (o.market ≡ us
        → o.order_type ≡ amount_order
        → Answers (x.calendar us w) (λ c. c.is_regular_session ≡ true))
      × (check_duplicate x o w ≡ ok approve))
  unfolding check_session
  check_session_iff = ground arith

  check_duplicate_iff :
      (check_duplicate x o w ≡ ok approve)
      ↔ ((order_id_exists o.client_order_id w ≡ false) × (check_event x o w ≡ ok approve))
  unfolding check_duplicate
  check_duplicate_iff = ground arith

  check_open_iff : (check_open x o w ≡ ok approve) ↔ (
      Answers (x.calendar o.market w) (λ c. c.is_open ≡ true) × (check_session x o w ≡ ok approve))
  unfolding check_open
  check_open_iff = ground arith

  check_warnings_iff : (check_warnings x o w ≡ ok approve) ↔ (
      (o.market ≡ kr → Answers (x.warnings o.symbol w) (λ s. s.has_restriction ≡ false))
      × (check_open x o w ≡ ok approve))
  unfolding check_warnings
  check_warnings_iff = ground arith

  check_buffer_iff : (check_buffer x o m w ≡ ok approve) ↔ (
      Answers
        (get_cash_buffer_krw x m.mode w)
        (λ b. less b (of_int w.settings.initial_seed_krw ⊗ decimal 5 2) ≡ false)
      × (check_warnings x o w ≡ ok approve))
  unfolding check_buffer
  check_buffer_iff = ground arith

  check_amount_iff :
      (check_amount x o m w ≡ ok approve)
      ↔ ((o.amount_krw ≤ℤ w.settings.max_single_order_krw) × (check_buffer x o m w ≡ ok approve))
  unfolding check_amount
  check_amount_iff = ground arith

  covered :
      (n : ℤ)
      → get_holding_quantity x o.symbol m.mode w ≡ ok n
      → o.action ≡ sell
      → Answers (get_holding_quantity x o.symbol m.mode w) (λ k. o.quantity ≤ℤ k)
      → check_amount x o m w ≡ ok approve
      → check_sellable x o m w ≡ ok approve
  unfolding check_sellable
  covered n known sale (k, e, le) rest = ground arith

  check_sellable_iff : (check_sellable x o m w ≡ ok approve) ↔ (
      (o.action ≡ sell → Answers (get_holding_quantity x o.symbol m.mode w) (λ n. o.quantity ≤ℤ n))
      × (check_amount x o m w ≡ ok approve))
  unfolding check_sellable
  check_sellable_iff = elim (Result-cases (get_holding_quantity x o.symbol m.mode w)) [
    | inl (n, known) ↦ (
      λ h. (λ e. (n, known, ground arith), ground arith),
      λ h. elim (TradeAction-cases o.action) [
        | inl sale ↦ covered n known sale (h.0 sale) h.1
        | inr other ↦ ground arith
      ],
    )
    | inr (e, failed) ↦ ground arith
  ]

  check_ratio_iff : (check_ratio x o m w ≡ ok approve) ↔ (
      Answers
        (get_position_ratio x o.symbol m.mode w)
        (λ r. less w.settings.max_position_ratio r ≡ false)
      × (check_sellable x o m w ≡ ok approve))
  unfolding check_ratio
  check_ratio_iff = ground arith

  check_loss_iff :
      (check_loss x o m w ≡ ok approve)
      ↔ ((get_daily_loss m w <ℤ w.settings.max_daily_loss_krw) × (check_ratio x o m w ≡ ok approve))
  unfolding check_loss
  check_loss_iff = ground arith

  check_flags_iff : (check_flags x o m w ≡ ok approve) ↔ (
      (w.settings.emergency_stop ≡ false)
      × (¬ IsStopped w m.market)
      × (check_loss x o m w ≡ ok approve))
  unfolding check_flags
  check_flags_iff = ground arith

  check_iff :
      (check x o m w ≡ ok approve)
      ↔ ((pos 0 <ℤ o.quantity) × (pos 0 <ℤ o.amount_krw) × (check_flags x o m w ≡ ok approve))
  unfolding check
  check_iff = ground arith

  check→Permits : check x o m w ≡ ok approve → Permits
  check→Permits h =
      let (a, b, h1) = check_iff.0 h in
      let (c, d, h2) = check_flags_iff.0 h1 in
      let (e, h3) = check_loss_iff.0 h2 in
      let (g, h4) = check_ratio_iff.0 h3 in
      let (i, h5) = check_sellable_iff.0 h4 in
      let (j, h6) = check_amount_iff.0 h5 in
      let (k, h7) = check_buffer_iff.0 h6 in
      let (l, h8) = check_warnings_iff.0 h7 in
      let (n, h9) = check_open_iff.0 h8 in
      let (p, h10) = check_session_iff.0 h9 in
      let (q, h11) = check_duplicate_iff.0 h10 in
      record {
        quantity_positive = a;
        amount_positive = b;
        no_emergency = c;
        market_runs = d;
        loss_below = e;
        ratio_within = g;
        sale_covered = i;
        amount_within = j;
        buffer_kept = k;
        unrestricted = l;
        market_open = n;
        session_regular = p;
        id_new = q;
        event_within = check_event_iff.0 h11;
      }

  Permits→check : Permits → check x o m w ≡ ok approve
  Permits→check p =
      let event = check_event_iff.1 p.event_within in
      let duplicate = check_duplicate_iff.1 (p.id_new, event) in
      let session = check_session_iff.1 (p.session_regular, duplicate) in
      let open_market = check_open_iff.1 (p.market_open, session) in
      let warned = check_warnings_iff.1 (p.unrestricted, open_market) in
      let buffer = check_buffer_iff.1 (p.buffer_kept, warned) in
      let amount = check_amount_iff.1 (p.amount_within, buffer) in
      let covered = check_sellable_iff.1 (p.sale_covered, amount) in
      let ratio = check_ratio_iff.1 (p.ratio_within, covered) in
      let loss = check_loss_iff.1 (p.loss_below, ratio) in
      let flags = check_flags_iff.1 (p.no_emergency, p.market_runs, loss) in
      check_iff.1 (p.quantity_positive, p.amount_positive, flags)

  -- The Safety Gate approves an order exactly when every one of its conditions holds and every
  -- answer that they need was given.
  pub check-approve_iff : (check x o m w ≡ ok approve) ↔ Permits
  check-approve_iff = (check→Permits, Permits→check)
