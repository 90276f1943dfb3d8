-- ===== src/Notify.antt =====
-- internal/notify/notify.go: notifiers, from the configuration, and what one does with an event.
-- The environment and the HTTP request with its answer are parameters.
use certinv.Prelude.{ℕ, String, Bool, true, List, [], ◌∷◌, ◌==◌, any, if◌then◌else◌}
use certinv.Text.{trim_space}
use certinv.Config
use certinv.Evaluate.{Event}
use certinv.Result.{message, about, Result, ok, err, ◌>>=◌}

-- the two payload functions
pub data Payload : Type 0 where
  slack webhook : Payload

pub record HttpNotifier : Type 0 where
  pub name : String
  pub url : String
  pub events : List String
  pub build : Payload

abbrev pub Getenv : Type 0
Getenv = String → String

abbrev slack_notifier : Config.Notifier → String → Result HttpNotifier
slack_notifier cfg webhook_url =
    if webhook_url == ""
    then err (about "slack notifier requires environment variable" cfg.webhook_url_env)
    else ok (record { name = "slack"; url = webhook_url; events = cfg.events; build = slack })

abbrev webhook_notifier : Config.Notifier → Result HttpNotifier
webhook_notifier cfg =
    if trim_space cfg.url == ""
    then err (message "webhook notifier requires url")
    else ok (record { name = "webhook"; url = cfg.url; events = cfg.events; build = webhook })

abbrev notifier_of : Getenv → Config.Notifier → Result HttpNotifier
notifier_of getenv cfg =
    if cfg.kind == "slack"
    then slack_notifier cfg (trim_space (getenv cfg.webhook_url_env))
    else if cfg.kind == "webhook"
    then webhook_notifier cfg
    else err (about "unsupported notifier type" cfg.kind)

-- a configuration with no type is passed over
unfoldable pub from_config : Getenv → List Config.Notifier → Result (List HttpNotifier)
from_config getenv [] = ok []
from_config getenv (cfg ∷ configs) =
    let rest = from_config getenv configs in
    if cfg.kind == ""
    then rest
    else do notifier ← notifier_of getenv cfg; notifiers ← rest; ok (notifier ∷ notifiers)

unfoldable pub handles : HttpNotifier → String → Bool
handles n kind = elim n.events [ [] ↦ true | e ∷ es ↦ any (λ x. x == kind) (e ∷ es) ]

-- The answer to a request that is made with this number: the status, or the error of the send.
abbrev pub Post : Type 0
Post = ℕ → HttpNotifier → Event → Result ℕ
