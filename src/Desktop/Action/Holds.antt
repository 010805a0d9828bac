-- ===== src/Desktop/Action/Holds.antt =====
-- An invariant of the state, one rule for each way to build an action.
use laap.Base.{Bool, if◌then◌else◌, false, true}
use laap.Desktop.Action.{
  Act, Cause, Result, attempt, continue, finally, gets, left, modify, ok, pure, rescue, settle,
  then_return, then_throw, throw, thrown, when, ◌>>=◌,
}

-- where `P` holds before the action, it holds after it, whether it returns or throws
pub record Holds {S A : Type 0} (P : S → Type 0) (m : Act S A) : Type 0 where
  pub at : (s : S) → P s → P (left (m s))

return-left :
    {S A : Type 0} (P : S → Type 0) (a : A) (r : Result S (Unit {0}))
    → P (left r)
    → P (left (then_return a r))
return-left P a (ok u s) h = h
return-left P a (thrown c s) h = h

throw-left :
    {S : Type 0} (A : Type 0) (P : S → Type 0) (c : Cause) (r : Result S (Unit {0}))
    → P (left r)
    → P (left (then_throw {A = A} c r))
throw-left A P c (ok u s) h = h
throw-left A P c (thrown d s) h = h

pub Holds-settle :
    {S A : Type 0} (P : S → Type 0) (r : Result S A) (last : Act S (Unit {0}))
    → P (left r)
    → Holds P last
    → P (left (settle r last))
Holds-settle P (ok a s) last h k = return-left P a (last s) (k.at s h)
Holds-settle {S} {A} P (thrown c s) last h k = throw-left A P c (last s) (k.at s h)

module _ {S A : Type 0} {P : S → Type 0} where
  pub Holds-pure : (a : A) → Holds P (pure a)
  unfolding pure
  Holds-pure a = record { at = λ s h. h }

  pub Holds-throw : (c : Cause) → Holds P (throw {A = A} c)
  unfolding throw
  Holds-throw c = record { at = λ s h. h }

  pub Holds-gets : (f : S → A) → Holds P (gets f)
  unfolding gets
  Holds-gets f = record { at = λ s h. h }

  pub Holds-if : (b : Bool) (m n : Act S A) → Holds P m → Holds P n → Holds P (if b then m else n)
  Holds-if true m n km kn = km
  Holds-if false m n km kn = kn

  pub Holds-rescue :
      (r : Result S A) (f : Cause → Act S A)
      → P (left r)
      → ((c : Cause) → Holds P (f c))
      → P (left (rescue r f))
  Holds-rescue (ok a s) f h k = h
  Holds-rescue (thrown c s) f h k = (k c).at s h

  pub Holds-attempt :
      (m : Act S A) (f : Cause → Act S A)
      → Holds P m
      → ((c : Cause) → Holds P (f c))
      → Holds P (attempt m f)
  unfolding attempt
  Holds-attempt m f km kf = record { at = λ s h. Holds-rescue (m s) f (km.at s h) kf }

  pub Holds-finally :
      (m : Act S A) (last : Act S (Unit {0})) → Holds P m → Holds P last → Holds P (finally m last)
  unfolding finally
  Holds-finally m last km kl = record { at = λ s h. Holds-settle P (m s) last (km.at s h) kl }

module _ {S : Type 0} {P : S → Type 0} where
  pub Holds-modify : (f : S → S) → ((s : S) → P s → P (f s)) → Holds P (modify f)
  unfolding modify
  Holds-modify f k = record { at = k }

  pub Holds-when : (b : Bool) (m : Act S (Unit {0})) → Holds P m → Holds P (when b m)
  unfolding when
  Holds-when true m k = record { at = k.at }
  Holds-when false m k = record { at = λ s h. h }

module _ {S A B : Type 0} {P : S → Type 0} where
  pub Holds-continue :
      (r : Result S A) (f : A → Act S B)
      → P (left r)
      → ((a : A) → Holds P (f a))
      → P (left (continue r f))
  Holds-continue (ok a s) f h k = (k a).at s h
  Holds-continue (thrown c s) f h k = h

  pub Holds-bind :
      (m : Act S A) (f : A → Act S B) → Holds P m → ((a : A) → Holds P (f a)) → Holds P (m >>= f)
  unfolding ◌>>=◌
  Holds-bind m f km kf = record { at = λ s h. Holds-continue (m s) f (km.at s h) kf }

module _ {S A : Type 0} (P : S → Type 0) where
  pub rescue-left :
      (r : Result S A) (f : Cause → Act S A)
      → P (left r)
      → ((c : Cause) (s : S) → P (left (f c s)))
      → P (left (rescue r f))
  rescue-left (ok a s) f h k = h
  rescue-left (thrown c s) f h k = k c s

  -- the handler may begin in any state
  pub left-attempt :
      (m : Act S A) (f : Cause → Act S A) (s : S)
      → P (left (m s))
      → ((c : Cause) (t : S) → P (left (f c t)))
      → P (left (attempt m f s))
  unfolding attempt
  left-attempt m f s h k = rescue-left (m s) f h k

  settle-left :
      (r : Result S A) (last : Act S (Unit {0}))
      → ((s : S) → P (left (last s)))
      → P (left (settle r last))
  settle-left (ok a s) last k = return-left P a (last s) (k s)
  settle-left (thrown c s) last k = throw-left A P c (last s) (k s)

  -- what the end makes true in any state
  pub left-finally :
      (m : Act S A) (last : Act S (Unit {0})) (s : S)
      → ((t : S) → P (left (last t)))
      → P (left (finally m last s))
  unfolding finally
  left-finally m last s k = settle-left (m s) last k

pub ruleset holds_rules = (
  Holds-pure, Holds-throw, Holds-gets, Holds-if, Holds-attempt, Holds-finally, Holds-when,
  Holds-bind,
)
