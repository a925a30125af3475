-- ===== src/Solver/Config/Startup.antt =====
-- What the solver has in stock when it starts.
use blindmarkets.Base.{
  ℕ, ◌+◌, ◌%◌, ◌^◌, ◌<◌, ◌≤◌, ◌≡◌, refl, sym, ap, ◌∙◌, Bool, true, false, not, ◌&&◌, inl, inr, List,
  [], ◌∷◌, Text, text_eq, text_eq→eq, Bool-cases, is_empty, if◌then◌else◌, arith,
}
use blindmarkets.Settings.{ok, Vars}
use blindmarkets.Settings.Reading.{IsRead, number_var-IsRead}
use blindmarkets.Solver.Matching.{
  MatchingEngine, Stock, new, with_accept_all, available, stock_up, add_inventory,
}
use blindmarkets.Solver.Config.{SolverConfig, from_env, validate, stock_all, engine_of}

-- The amounts of the asset together.
abbrev pub listed : Text → List (Text × ℕ) → ℕ
listed asset [] = 0
listed asset ((name, amount) ∷ stocks) =
    (if text_eq name asset then amount else 0) + listed asset stocks

available-stock_up :
    (asset name : Text) (amount : ℕ) (ss : List Stock)
    → available asset (stock_up name amount ss) % 2 ^ 128
      ≡ (available asset ss + (if text_eq name asset then amount else 0)) % 2 ^ 128
unfolding available stock_up
available-stock_up asset name amount [] = ground arith
available-stock_up asset name amount (s ∷ ss) = elim (Bool-cases (text_eq s.asset name)) [
  | inl here ↦
      let same : text_eq s.asset asset ≡ text_eq name asset =
        ap (λ n. text_eq n asset) (text_eq→eq s.asset name here) in
      rw here (rw same (ground arith))
  | inr other ↦
      let apart : text_eq name asset ≡ true → text_eq s.asset asset ≡ false =
        λ k. ap (λ n. text_eq s.asset n) (sym (text_eq→eq name asset k)) ∙ other in
      rw other (elim (Bool-cases (text_eq name asset)) [
        | inl k ↦
            rw (k, apart k) (let ih = available-stock_up asset name amount ss in ground (arith, ih))
        | inr n ↦ let ih = available-stock_up asset name amount ss in ground (arith, ih)
      ])
]

available-stock_all :
    (asset : Text) (stocks : List (Text × ℕ)) (e : MatchingEngine)
    → available asset (stock_all stocks e).internal_inventory % 2 ^ 128
      ≡ (available asset e.internal_inventory + listed asset stocks) % 2 ^ 128
unfolding stock_all add_inventory
available-stock_all asset [] e = ap (λ n. n % 2 ^ 128) (omega arith)
available-stock_all asset ((name, amount) ∷ stocks) e =
    let rest = available-stock_all asset stocks (add_inventory name amount e) in
    let step = available-stock_up asset name amount e.internal_inventory in
    omega (arith, rest, step)

pub record IsReady (vars : Vars) (c : SolverConfig) : Type 0 where
  pub fee : IsRead (2 ^ 16) vars "SOLVER_FEE_BPS" c.solver_fee_bps
  pub fee_positive : 0 < c.solver_fee_bps
  pub fee_bounded : c.solver_fee_bps ≤ 10000
  pub stocked :
      (asset : Text)
      → available asset (engine_of c).internal_inventory % 2 ^ 128
        ≡ listed asset c.initial_inventory % 2 ^ 128
  pub can_fill :
      is_empty c.dex_quote_endpoints && is_empty c.initial_inventory && not c.accept_all_intents
      ≡ false
  pub mode : (engine_of c).accept_all ≡ c.accept_all_intents

accept_all-stock_all :
    (stocks : List (Text × ℕ)) (e : MatchingEngine) → (stock_all stocks e).accept_all ≡ e.accept_all
unfolding stock_all add_inventory
accept_all-stock_all [] e = refl
accept_all-stock_all ((name, amount) ∷ stocks) e =
    accept_all-stock_all stocks (add_inventory name amount e)

nothing_yet :
    (asset : Text) (all : Bool)
    → available asset (if all then with_accept_all new else new).internal_inventory ≡ 0
unfolding available new with_accept_all
nothing_yet asset true = refl
nothing_yet asset false = refl

engine_of-available :
    (c : SolverConfig) (asset : Text)
    → available asset (engine_of c).internal_inventory % 2 ^ 128
      ≡ listed asset c.initial_inventory % 2 ^ 128
unfolding engine_of
engine_of-available c asset =
    available-stock_all asset c.initial_inventory _
    ∙ ap (λ n. (n + listed asset c.initial_inventory) % 2 ^ 128)
        (nothing_yet asset c.accept_all_intents)
    ∙ ap (λ n. n % 2 ^ 128) (omega arith)

engine_of-mode : (c : SolverConfig) → (engine_of c).accept_all ≡ c.accept_all_intents
unfolding engine_of new with_accept_all
engine_of-mode c = accept_all-stock_all c.initial_inventory _ ∙ ground arith

-- A solver that starts, as its settings were read and validated: its fee is the number of its
-- variable, from 1 to 10000; its engine has in stock of each asset the amounts that the settings list
-- for it together, as a u128, and fills every intent where they say so; and there is something to fill
-- an intent with.
pub from_env-IsReady :
    (vars : Vars) (c : SolverConfig) → from_env vars ≡ ok c → validate c ≡ ok tt → IsReady vars c
unfolding from_env validate
from_env-IsReady vars c h v = record {
  fee = number_var-IsRead _ vars _ _ (ground arith);
  fee_positive = ground arith;
  fee_bounded = ground arith;
  stocked = engine_of-available c;
  can_fill = ground arith;
  mode = engine_of-mode c;
}
