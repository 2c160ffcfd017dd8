-- ===== src/Outage/Standing.antt =====
-- The alert about Docker, over the ticks.
use shipwick.Base.{
  ℕ, ◌≡◌, refl, inl, inr, Bool, true, false, Option, none, some, List, leb, Bool-cases,
}
use shipwick.Alerts.{Alert, get}
use shipwick.Alerts.Books.{clear_alert_lem}
use shipwick.Outage.{
  Silence, docker_key, docker_alert_after, lasted, answered, began, unanswered, docker_answers,
}

-- The alert stands only while an outage is remembered.
abbrev pub IsTold : Option Silence → List Alert → Type 0
IsTold none book = get docker_key book ≡ none
IsTold (some o) book = Unit

answered-IsTold :
    (outage : Option Silence) (now : ℕ) (book : List Alert)
    → IsTold outage book
    → get docker_key (answered outage now book).book ≡ none
answered-IsTold none now book h = h
answered-IsTold (some o) now book h = (clear_alert_lem docker_key docker_key false false book).0

unanswered-IsTold :
    (o : Silence) (now wall : ℕ) (book : List Alert)
    → ((unanswered o now wall book).goes_on ≡ false)
      × ((unanswered o now wall book).outage ≡ some o)
unanswered-IsTold o now wall book = elim (Bool-cases (leb docker_alert_after (lasted o now wall))) [
  | inl long ↦ rw long (refl, refl)
  | inr short ↦ rw short (refl, refl)
]

-- If the alert about Docker stands only while an outage is remembered, so it does after any tick;
-- and where the tick goes on, Docker has answered, the outage is forgotten and the alert is gone.
pub docker_answers-IsTold :
    (ended fails : Bool) (now asked wall : ℕ) (outage : Option Silence) (book : List Alert)
    → IsTold outage book
    → let t = docker_answers ended fails now asked wall outage book in
      IsTold t.outage t.book
      × (t.goes_on ≡ true → (fails ≡ false) × (t.outage ≡ none) × (get docker_key t.book ≡ none))
unfolding docker_answers
docker_answers-IsTold true fails now asked wall outage book h = (h, λ e. absurd (cc))
docker_answers-IsTold false false now asked wall none book h = (h, λ e. (refl, refl, h))
docker_answers-IsTold false false now asked wall (some o) book h =
    let gone = answered-IsTold (some o) now book tt in (gone, λ e. (refl, refl, gone))
docker_answers-IsTold false true now asked wall outage book h =
    let silent = unanswered-IsTold (began outage now asked) now wall book in
    (rw silent.1 tt, λ e. absurd (cc (silent.0, e)))
