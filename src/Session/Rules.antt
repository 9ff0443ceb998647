-- ===== src/Session/Rules.antt =====
-- Rules for the actions of a session: a relation between the state before and the state after that
-- is reflexive and transitive holds of an action if it holds of its parts.
use openfix.Prelude.{Bool, true, false, Option, none, some, if◌then◌else◌}
use openfix.Session.State.{
  Session, M, Outcome, ok, threw, stuck, continue, ◌>>=◌, pure, gets, modify, or_throw,
}

-- Every outcome of the action is related to the state before.
pub record Related (R : Session → Session → Type 0) {A : Type 0} (m : M A) : Type 0 where
  pub at : (s : Session) → R s (m s).1

module _ (R : Session → Session → Type 0) (R-refl : (s : Session) → R s s)
    (R-trans : (s t u : Session) → R s t → R t u → R s u) where
  pub Related-pure : {A : Type 0} (a : A) → Related R (pure a)
  unfolding pure
  Related-pure a = record { at = R-refl }

  pub Related-gets : {A : Type 0} (f : Session → A) → Related R (gets f)
  unfolding gets
  Related-gets f = record { at = R-refl }

  pub Related-or_throw : {A : Type 0} (o : Option A) → Related R (or_throw o)
  unfolding or_throw
  Related-or_throw none = record { at = R-refl }
  Related-or_throw (some a) = record { at = R-refl }

  Related-continue :
      {A B : Type 0} (r : Outcome A) (f : A → M B) (s t : Session)
      → R s t
      → ((a : A) → Related R (f a))
      → R s (continue r f t).1
  Related-continue (ok a) f s t h k = R-trans s t _ h ((k a).at t)
  Related-continue threw f s t h k = h
  Related-continue stuck f s t h k = h

  pub Related-bind :
      {A B : Type 0} (m : M A) (f : A → M B)
      → Related R m
      → ((a : A) → Related R (f a))
      → Related R (m >>= f)
  unfolding ◌>>=◌
  Related-bind m f hm hf = record {
    at = λ s. let (r, t) = m s in Related-continue r f s t (hm.at s) hf;
  }

module _ (R : Session → Session → Type 0) where
  pub Related-modify : (f : Session → Session) → ((s : Session) → R s (f s)) → Related R (modify f)
  unfolding modify
  Related-modify f h = record { at = h }

  pub Related-if :
      {A : Type 0} (b : Bool) (m n : M A)
      → Related R m
      → Related R n
      → Related R (if b then m else n)
  Related-if true m n hm hn = hm
  Related-if false m n hm hn = hn
