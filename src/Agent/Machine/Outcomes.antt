-- ===== src/Agent/Machine/Outcomes.antt =====
-- What an action ensures: from a claim on the service, the files and the reports, one claim where it
-- returns and one where it fails.
use lenker_panel.Base.{
  ◌≡◌, refl, Bool, true, false, String, Option, none, some, List, Result, ok, err, Bool-cases, inl,
  inr, if◌then◌else◌,
}
use lenker_panel.Agent.Model.{AgentError}
use lenker_panel.Agent.Service.{Service}
use lenker_panel.Agent.Machine.{
  Body, Files, ConfigRevisionReport, Host, World, Action, pure, returned, gets, on_error, modify,
  ◌>>=◌, ◌>>◌, operation, write_file_atomic, read_file, time_now, with_file, look_up, contents,
  unreadable, found,
}

abbrev pub Reports : Type 0
Reports = List (String × ConfigRevisionReport)

abbrev pub Claim : Type 1
Claim = Service → Files → Reports → Type 0

abbrev pub At : Claim → World → Type 0
At P w = P w.service w.files w.reports

abbrev pub Ends {ℓ} : {A : Type ℓ} → (A → Claim) → Claim → Result AgentError A × World → Type 0
Ends R E (ok a, w) = At (R a) w
Ends R E (err e, w) = At E w

pub record Ensures {ℓ} {A : Type ℓ} (P : Claim) (m : Action A) (R : A → Claim) (E : Claim)
    : Type ℓ where
  pub run : (w : World) → At P w → Ends R E (m w)

-- one claim follows from another
abbrev pub Implies : Claim → Claim → Type 0
Implies P Q = (s : Service) (fs : Files) (rs : Reports) → P s fs rs → Q s fs rs

module _ {ℓ κ} {A : Type ℓ} {B : Type κ} (R : A → Claim) (S : B → Claim) (E : Claim) where
  continued :
      (f : A → Action B) (r : Result AgentError A) (w : World)
      → ((a : A) → Ensures (R a) (f a) S E)
      → Ends R E (r, w)
      → Ends S E
          (elim r as (λ _. Result AgentError B × World) [ ok a ↦ f a w | err e ↦ (err e, w) ])
  continued f (ok a) w k h = (k a).run w h
  continued f (err e) w k h = h

module _ {ℓ κ} {A : Type ℓ} {B : Type κ} {P : Claim} {S : B → Claim} {E : Claim} where
  pub bind-Ensures :
      (R : A → Claim) (m : Action A) (f : A → Action B)
      → Ensures P m R E
      → ((a : A) → Ensures (R a) (f a) S E)
      → Ensures P (m >>= f) S E
  unfolding ◌>>=◌
  bind-Ensures R m f hm k = record { run = λ w h. continued R S E f (m w).0 (m w).1 k (hm.run w h) }

module _ {ℓ κ} {A : Type ℓ} {B : Type κ} {P : Claim} {S : B → Claim} {E : Claim} where
  pub then-Ensures :
      (R : Claim) (m : Action A) (k : Action B)
      → Ensures P m (λ _. R) E
      → Ensures R k S E
      → Ensures P (m >> k) S E
  unfolding ◌>>◌
  then-Ensures R m k hm hk = bind-Ensures (λ _. R) m (λ _. k) hm (λ _. hk)

module _ {ℓ} {A : Type ℓ} (E : Claim) where
  handled :
      (R : A → Claim) (handle : AgentError → World → World) (r : Result AgentError A) (w : World)
      → ((e : AgentError) (v : World) → At E v → At E (handle e v))
      → Ends R E (r, w)
      → Ends R E (elim r as (λ _. Result AgentError A × World) [
        | ok a ↦ (ok a, w)
        | err e ↦ (err e, handle e w)
      ])
  handled R handle (ok a) w k h = h
  handled R handle (err e) w k h = k e w h

read_found :
    (b : Bool) (o : Option Body) (body : Body)
    → (if b then unreadable else found o) ≡ contents body
    → o ≡ some body
read_found true o body e = cc
read_found false none body e = cc
read_found false (some b) body e = cc

module _ {A : Type 0} {P : Claim} {E : Claim} where
  pub returned-Ensures :
      (r : Result AgentError A)
      → Implies P E
      → Ensures P (returned r) (λ a s fs rs. (r ≡ ok a) × P s fs rs) E
  unfolding returned
  returned-Ensures (ok a) k = record { run = λ w h. (cc, h) }
  returned-Ensures (err e) k = record { run = λ w h. k w.service w.files w.reports h }

module _ {ℓ} {A : Type ℓ} {P : Claim} {E : Claim} where
  pub pure-Ensures : (R : A → Claim) (a : A) → Implies P (R a) → Ensures P (pure a) R E
  unfolding pure
  pure-Ensures R a k = record { run = λ w h. k w.service w.files w.reports h }

  pub gets-Ensures : (f : World → A) → Ensures P (gets f) (λ a. P) E
  unfolding gets
  gets-Ensures f = record { run = λ w h. h }

  pub on_error-Ensures :
      (R : A → Claim) (m : Action A) (handle : AgentError → World → World)
      → Ensures P m R E
      → ((e : AgentError) (v : World) → At E v → At E (handle e v))
      → Ensures P (on_error m handle) R E
  unfolding on_error
  on_error-Ensures R m handle hm k = record {
    run = λ w h. handled E R handle (m w).0 (m w).1 k (hm.run w h);
  }

module _ {P : Claim} {E : Claim} where
  pub modify-Ensures :
      (R : Claim) (f : World → World)
      → ((w : World) → At P w → At R (f w))
      → Ensures P (modify f) (λ _. R) E
  unfolding modify
  modify-Ensures R f k = record { run = k }

  module _ (host : Host) where
    pub operation-Ensures : Implies P E → Ensures P (operation host) (λ _. P) E
    unfolding operation
    operation-Ensures k = record {
      run = λ w h. elim (Bool-cases (host.fails w.operations)) [
        | inl e ↦ rw e (k w.service w.files w.reports h)
        | inr e ↦ rw e h
      ];
    }

    pub time_now-Ensures : Ensures P (time_now host) (λ _. P) E
    unfolding time_now
    time_now-Ensures = record { run = λ w h. h }

    pub write_file_atomic-Ensures :
        (R : Claim) (path : String) (body : Body)
        → ((s : Service) (fs : Files) (rs : Reports) → P s fs rs → R s (with_file path body fs) rs)
        → Implies P E
        → Ensures P (write_file_atomic host path body) (λ _. R) E
    unfolding write_file_atomic
    write_file_atomic-Ensures R path body k e =
        let go = operation-Ensures e in
        then-Ensures P _ _ go (
          then-Ensures P _ _ go (
            then-Ensures P _ _ go (
              then-Ensures P _ _ go (
                then-Ensures P _ _ go
                  (modify-Ensures R _ (λ w h. k w.service w.files w.reports h))))))

    -- what is read is what the file holds, if it can be read
    pub read_file-Ensures :
        (path : String)
        → Ensures P
            (read_file host path)
            (λ read s fs rs.
              P s fs rs × ((body : Body) → read ≡ contents body → look_up path fs ≡ some body))
            E
    unfolding read_file
    read_file-Ensures path = record {
      run =
          λ w h. (h, λ body e. read_found (host.fails w.operations) (look_up path w.files) body e);
    }

module _ {ℓ} {A : Type ℓ} (E : Claim) (R S : A → Claim) where
  concluded :
      (r : Result AgentError A × World) → ((a : A) → Implies (R a) (S a)) → Ends R E r → Ends S E r
  concluded (ok a, w) k h = k a w.service w.files w.reports h
  concluded (err e, w) k h = h

module _ {ℓ} {A : Type ℓ} {P E : Claim} {R : A → Claim} where
  pub conclude-Ensures :
      (S : A → Claim) (m : Action A)
      → ((a : A) → Implies (R a) (S a))
      → Ensures P m R E
      → Ensures P m S E
  conclude-Ensures S m k hm = record { run = λ w h. concluded E R S (m w) k (hm.run w h) }

  -- a fact that the claim implies may be used for the action
  pub given-Ensures :
      (Φ : Type 0) (m : Action A)
      → ((s : Service) (fs : Files) (rs : Reports) → P s fs rs → Φ)
      → (Φ → Ensures P m R E)
      → Ensures P m R E
  given-Ensures Φ m fact k = record {
    run = λ w h. (k (fact w.service w.files w.reports h)).run w h;
  }

  pub from-Ensures : (Q : Claim) (m : Action A) → Implies P Q → Ensures Q m R E → Ensures P m R E
  from-Ensures Q m k hm = record { run = λ w h. hm.run w (k w.service w.files w.reports h) }

module _ {ℓ} {A : Type ℓ} {X : Type 0} {E : Claim} {R : A → Claim} where
  pub exists-Ensures :
      (P : X → Claim) (m : Action A)
      → ((x : X) → Ensures (P x) m R E)
      → Ensures (λ s fs rs. (x : X) × P x s fs rs) m R E
  exists-Ensures P m k = record { run = λ w h. (k h.0).run w h.1 }

module _ {ℓ} {A : Type ℓ} (E F : Claim) (R : A → Claim) where
  failed_as : (r : Result AgentError A × World) → Implies E F → Ends R E r → Ends R F r
  failed_as (ok a, w) k h = h
  failed_as (err e, w) k h = k w.service w.files w.reports h

module _ {ℓ} {A : Type ℓ} {P E F : Claim} {R : A → Claim} where
  pub fails-Ensures : (m : Action A) → Implies E F → Ensures P m R E → Ensures P m R F
  fails-Ensures m k hm = record { run = λ w h. failed_as E F R (m w) k (hm.run w h) }

module _ {P E : Claim} where
  pub status-Ensures :
      Ensures P (gets (λ w. w.service.status)) (λ a s fs rs. (a ≡ s.status) × P s fs rs) E
  unfolding gets
  status-Ensures = record { run = λ w h. (refl, h) }
