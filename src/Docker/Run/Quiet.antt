-- ===== src/Docker/Run/Quiet.antt =====
-- Which actions run no docker command, and which raise an exception whatever was done before.
use mathlib.Core.List.{append-nil}
use sandbox_tester.Common.{
  ◌≡◌, refl, ◌∙◌, arith, true, false, List, [], ◌∷◌, ◌++◌, String, Bool, Result, ok, err, is_ok,
}
use sandbox_tester.Docker.Run.Host.{
  Host, Action, Effect, make_directory, write_text, change_mode, run_command, remove_tree, pure,
  lift, ◌>>=◌, continue, for_each, perform,
}

-- The docker commands among the effects.
abbrev pub docker_commands : List Effect → List (List String)
docker_commands [] = []
docker_commands (run_command command ∷ es) = command ∷ docker_commands es
docker_commands (make_directory path ∷ es) = docker_commands es
docker_commands (write_text path document ∷ es) = docker_commands es
docker_commands (change_mode path mode ∷ es) = docker_commands es
docker_commands (remove_tree path ∷ es) = docker_commands es

pub docker_commands-++ :
    (es fs : List Effect) → docker_commands (es ++ fs) ≡ docker_commands es ++ docker_commands fs
docker_commands-++ [] fs = refl
docker_commands-++ (run_command command ∷ es) fs = rw (docker_commands-++ es fs) refl
docker_commands-++ (make_directory path ∷ es) fs = docker_commands-++ es fs
docker_commands-++ (write_text path document ∷ es) fs = docker_commands-++ es fs
docker_commands-++ (change_mode path mode ∷ es) fs = docker_commands-++ es fs
docker_commands-++ (remove_tree path ∷ es) fs = docker_commands-++ es fs

-- The action runs no docker command, whatever was done before and also where it raises.
pub record IsQuiet {A : Type 0} (m : Action A) : Type 0 where
  pub quiet : (done : List Effect) → docker_commands ((m done).0) ≡ docker_commands done

-- The action raises an exception, whatever was done before.
pub record Refuses {A : Type 0} (m : Action A) : Type 0 where
  pub refuses : (done : List Effect) → is_ok ((m done).1) ≡ false

module _ {A : Type 0} where
  pub pure-IsQuiet : (a : A) → IsQuiet (pure a)
  pure-IsQuiet a = record { quiet = λ done. refl }

  pub lift-IsQuiet : (r : Result A) → IsQuiet (lift r)
  lift-IsQuiet r = record { quiet = λ done. refl }

  pub lift-Refuses : (r : Result A) → is_ok r ≡ false → Refuses (lift r)
  lift-Refuses r h = record { refuses = λ done. h }

module _ {A B : Type 0} where
  continue-IsQuiet :
      (r : List Effect × Result A) (k : A → Action B)
      → ((a : A) → IsQuiet (k a))
      → docker_commands ((continue r k).0) ≡ docker_commands (r.0)
  continue-IsQuiet (done, ok a) k h = (h a).quiet done
  continue-IsQuiet (done, err e) k h = refl

  pub >>=-IsQuiet :
      (m : Action A) (k : A → Action B) → IsQuiet m → ((a : A) → IsQuiet (k a)) → IsQuiet (m >>= k)
  >>=-IsQuiet m k hm hk = record { quiet = λ done. continue-IsQuiet (m done) k hk ∙ hm.quiet done }

  continue-Refuses :
      (r : List Effect × Result A) (k : A → Action B)
      → is_ok (r.1) ≡ false
      → is_ok ((continue r k).1) ≡ false
  continue-Refuses (done, ok a) k h = ground arith
  continue-Refuses (done, err e) k h = refl

  pub >>=-Refuses-first : (m : Action A) (k : A → Action B) → Refuses m → Refuses (m >>= k)
  >>=-Refuses-first m k h = record {
    refuses = λ done. continue-Refuses (m done) k (h.refuses done);
  }

  continue-Refuses_next :
      (r : List Effect × Result A) (k : A → Action B)
      → ((a : A) → Refuses (k a))
      → is_ok ((continue r k).1) ≡ false
  continue-Refuses_next (done, ok a) k h = (h a).refuses done
  continue-Refuses_next (done, err e) k h = refl

  pub >>=-Refuses-next :
      (m : Action A) (k : A → Action B) → ((a : A) → Refuses (k a)) → Refuses (m >>= k)
  >>=-Refuses-next m k h = record { refuses = λ done. continue-Refuses_next (m done) k h }

  continue_refused :
      (r : List Effect × Result A) (k : A → Action B) → is_ok (r.1) ≡ false → (continue r k).0 ≡ r.0
  continue_refused (done, ok a) k h = ground arith
  continue_refused (done, err e) k h = refl

  -- What follows an exception is not done.
  pub >>=-IsQuiet-refused :
      (m : Action A) (k : A → Action B) → IsQuiet m → Refuses m → IsQuiet (m >>= k)
  >>=-IsQuiet-refused m k h r = record {
    quiet = λ done. rw (continue_refused (m done) k (r.refuses done)) (h.quiet done);
  }

pub for_each-IsQuiet :
    {A : Type 0} (body : A → Action (Unit {0})) (xs : List A)
    → ((x : A) → IsQuiet (body x))
    → IsQuiet (for_each body xs)
unfolding for_each
for_each-IsQuiet body [] h = pure-IsQuiet tt
for_each-IsQuiet body (x ∷ xs) h =
    >>=-IsQuiet (body x) (λ _. for_each body xs) (h x) (λ _. for_each-IsQuiet body xs h)

abbrev pub is_command : Effect → Bool
is_command (run_command command) = true
is_command (make_directory path) = false
is_command (write_text path document) = false
is_command (change_mode path mode) = false
is_command (remove_tree path) = false

docker_commands-single : (e : Effect) → is_command e ≡ false → docker_commands (e ∷ []) ≡ []
docker_commands-single (run_command command) h = ground arith
docker_commands-single (make_directory path) h = refl
docker_commands-single (write_text path document) h = refl
docker_commands-single (change_mode path mode) h = refl
docker_commands-single (remove_tree path) h = refl

pub docker_commands-appended :
    (es : List Effect) (e : Effect)
    → is_command e ≡ false
    → docker_commands (es ++ e ∷ []) ≡ docker_commands es
docker_commands-appended es e h =
    rw (docker_commands-++ es (e ∷ []), docker_commands-single e h)
      (append-nil (docker_commands es))

pub perform-IsQuiet : (host : Host) (e : Effect) → is_command e ≡ false → IsQuiet (perform host e)
unfolding perform
perform-IsQuiet host e h = record { quiet = λ done. docker_commands-appended done e h }
