-- ===== src/Execution/World/Rules.antt =====
-- A proof rule for the computations of a turn: what each primitive keeps, a computation keeps.
use harness_runtime.Base.{ℕ, String, Bool, true, false, List, if◌then◌else◌}
use harness_runtime.Value.{Fields}
use harness_runtime.Value.Errors.{Result, ok, err}
use harness_runtime.Publisher.{
  Call, result, lifecycle_completed, lifecycle_failed, lifecycle_cancelled,
}
use harness_runtime.Reports.Throttle as Throttle
use harness_runtime.Execution.State.{ExecutionState}
use harness_runtime.Execution.World.{
  Env, World, Thrown, Outcome, returned, threw, M, after, ◌>>=◌, pure, throw, lift, get_state,
  change, publish, tick, store_messages, store_files, post_as_sandbox, throttled, report_if,
}

-- The computation leaves the property as it found it.
pub record Keeps (P : World → Type 0) {A : Type 0} (m : M A) : Type 0 where
  pub kept : (w : World) → P w → P (m w).1

-- A call that does not end a turn.
abbrev pub IsBody : Call → Type 0
IsBody (result args) = ⊥
IsBody lifecycle_completed = ⊥
IsBody (lifecycle_failed error) = ⊥
IsBody (lifecycle_cancelled reason) = ⊥
IsBody c = Unit

pub record Rule (env : Env) (P : World → Type 0) : Type 0 where
  pub changed : (f : ExecutionState → ExecutionState) → Keeps P (change f)
  pub ticked : Keeps P tick
  pub published : (c : Call) → IsBody c → Keeps P (publish c)
  pub stored_messages :
      (ms : List Fields) (n : ℕ) (s : String) → Keeps P (store_messages env ms n s)
  pub stored_files : (fs : Fields) → Keeps P (store_files env fs)
  pub posted : (route : String) → Keeps P (post_as_sandbox env route)
  pub throttles : (step : ℕ → Throttle.Slots → Bool × Throttle.Slots) → Keeps P (throttled env step)

module _ {P : World → Type 0} where
  pub keep_pure : {A : Type 0} (a : A) → Keeps P (pure a)
  unfolding pure
  keep_pure a = record { kept = λ w h. h }

  pub keep_throw : {A : Type 0} (t : Thrown) → Keeps P (throw {A = A} t)
  unfolding throw
  keep_throw t = record { kept = λ w h. h }

  pub keep_lift : {A : Type 0} (r : Result A) → Keeps P (lift r)
  unfolding lift
  keep_lift (ok a) = record { kept = λ w h. h }
  keep_lift (err e) = record { kept = λ w h. h }

  pub keep_get_state : Keeps P get_state
  unfolding get_state
  keep_get_state = record { kept = λ w h. h }

  keep_after :
      {A B : Type 0} (r : Outcome A × World) (f : A → M B)
      → P r.1
      → ((a : A) → Keeps P (f a))
      → P (after r f).1
  keep_after (returned a, w) f h k = (k a).kept w h
  keep_after (threw t, w) f h k = h

  pub keep_bind :
      {A B : Type 0} {m : M A} {f : A → M B}
      → Keeps P m
      → ((a : A) → Keeps P (f a))
      → Keeps P (m >>= f)
  unfolding ◌>>=◌
  keep_bind {f} h k = record { kept = λ w p. keep_after _ f (h.kept w p) k }

  pub keep_if :
      {A : Type 0} (b : Bool) {m n : M A} → Keeps P m → Keeps P n → Keeps P (if b then m else n)
  keep_if true h k = h
  keep_if false h k = k

  pub keep_report_if :
      {env : Env} (step : ℕ → Throttle.Slots → Bool × Throttle.Slots)
      → Rule env P
      → Keeps P (report_if env step)
  unfolding report_if
  keep_report_if step rule =
      keep_bind (rule.throttles step) (λ sends. keep_if sends (rule.posted _) (keep_pure tt))

-- From the property on, the computation leads to an outcome and a world with another.
pub record Leads {A : Type 0} (P : World → Type 0) (Q : Outcome A × World → Type 0) (m : M A)
    : Type 0 where
  pub leads : (w : World) → P w → Q (m w)

module _ {P : World → Type 0} where
  pub if-Leads :
      {A : Type 0} {Q : Outcome A × World → Type 0} (b : Bool) {m n : M A}
      → Leads P Q m
      → Leads P Q n
      → Leads P Q (if b then m else n)
  if-Leads true h k = h
  if-Leads false h k = k

  pub bind-Leads :
      {A B : Type 0} {m : M A} {Q : Outcome B × World → Type 0} (S : Outcome A × World → Type 0)
      (f : A → M B)
      → Leads P S m
      → ((r : Outcome A × World) → S r → Q (after r f))
      → Leads P Q (m >>= f)
  unfolding ◌>>=◌
  bind-Leads {m} S f h k = record { leads = λ w p. k (m w) (h.leads w p) }

  pub pure-Leads :
      {A : Type 0} {Q : Outcome A × World → Type 0} (a : A)
      → ((w : World) → P w → Q (returned a, w))
      → Leads P Q (pure a)
  unfolding pure
  pure-Leads a h = record { leads = h }

  pub throw-Leads :
      {A : Type 0} {Q : Outcome A × World → Type 0} (t : Thrown)
      → ((w : World) → P w → Q (threw t, w))
      → Leads P Q (throw t)
  unfolding throw
  throw-Leads t h = record { leads = h }

  after-Leads :
      {A B : Type 0} {Q : Outcome B × World → Type 0} (r : Outcome A × World) (f : A → M B)
      → ((w : World) (t : Thrown) → P w → Q (threw t, w))
      → P r.1
      → ((a : A) → Leads P Q (f a))
      → Q (after r f)
  after-Leads (returned a, w) f thrown p k = (k a).leads w p
  after-Leads (threw t, w) f thrown p k = thrown w t p

  -- A first part that keeps the property, where the property is enough for a throw.
  pub keep-Leads :
      {A B : Type 0} {m : M A} {f : A → M B} {Q : Outcome B × World → Type 0}
      → ((w : World) (t : Thrown) → P w → Q (threw t, w))
      → Keeps P m
      → ((a : A) → Leads P Q (f a))
      → Leads P Q (m >>= f)
  unfolding ◌>>=◌
  keep-Leads {m} {f} {Q} thrown h k = record {
    leads = λ w p. after-Leads {Q = Q} (m w) f thrown (h.kept w p) k;
  }
