-- ===== src/Views/Statuses.antt =====
-- What a reported status says of the containers.
use shipwick.Base.{
  ℕ, ◌≤◌, ◌≡◌, refl, ◌↔◌, Bool, true, false, not, ◌&&◌, Option, some, List, [], ◌∷◌, any, arith,
}
use shipwick.Records.{DesiredState}
use shipwick.Supervisor.{is_ready}
use shipwick.Supervisor.Handlers.{Supervisor}
use shipwick.Views.{
  app_stopped, app_down, app_crash_loop, is_stopped, Container, Active, Serving, is_counted,
  is_serving, is_looping, application_status, counted, summarize,
}

module _ (app : ℕ) (active : Active) (rolling : Option Serving) (s : Supervisor) where
  counted-healthy-le :
      (cs : List Container)
      → (counted app active rolling s cs).0.healthy ≤ (counted app active rolling s cs).0.running
  unfolding counted is_ready
  counted-healthy-le [] = omega arith
  counted-healthy-le (c ∷ cs) = ground (arith, counted-healthy-le cs)

  counted-looping :
      (cs : List Container)
      → (counted app active rolling s cs).1
        ≡ any (λ c. is_counted app active rolling c && is_looping s c) cs
  unfolding counted
  counted-looping [] = refl
  counted-looping (c ∷ cs) = ground (arith, counted-looping cs)

  counted-none :
      (cs : List Container)
      → (counted app active rolling s cs).0.healthy ≡ 0
      → any (λ c. is_counted app active rolling c && is_serving s c) cs ≡ false
  unfolding counted
  counted-none [] h = refl
  counted-none (c ∷ cs) h = ground (arith, counted-none cs)

-- Of an application with an active deployment, whatever is desired of it: no more replicas are
-- reported healthy than running; it is reported as stopped exactly when it is to be; it is reported
-- as crash-looping exactly when it is not to be stopped and a container that counts is
-- crash-looping; and if it is reported down, no container that counts is ready.
pub summarize_lem :
    (app : ℕ) (active : Active) (state : DesiredState) (rolling : Option Serving) (deploying : Bool)
    (s : Supervisor) (cs : List Container)
    → let r = summarize app (some active) state rolling deploying s cs in
      (r.0.healthy ≤ r.0.running)
      × ((r.1 ≡ app_stopped) ↔ (is_stopped state ≡ true))
      × ((r.1 ≡ app_crash_loop) ↔ (
          (not (is_stopped state)
            && any (λ c. is_counted app active rolling c && is_looping s c) cs)
          ≡ true))
      × (r.1 ≡ app_down → any (λ c. is_counted app active rolling c && is_serving s c) cs ≡ false)
unfolding summarize application_status
summarize_lem app active state rolling deploying s cs =
    let n = (counted app active rolling s cs).0 in
    (
      counted-healthy-le app active rolling s cs,
      (λ h. ground (arith, h), λ h. ground (arith, h)),
      (
        λ h. ground (arith, h, counted-looping app active rolling s cs),
        λ h. ground (arith, h, counted-looping app active rolling s cs),
      ),
      λ h. counted-none app active rolling s cs (ground (arith, h)),
    )
