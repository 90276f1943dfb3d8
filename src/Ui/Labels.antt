-- ===== src/Ui/Labels.antt =====
-- The texts that the page shows for values of the store.
use certinv.Prelude.{String, ◌==◌, ◌||◌, if◌then◌else◌}
use certinv.Text.{trim_space, to_upper}

-- `displayOrigin`
unfoldable pub display_origin : String → String
display_origin origin =
    if trim_space origin == "config"
    then "config.yaml"
    else if trim_space origin == "db"
    then "Added in UI"
    else if trim_space origin == "form"
    then "Current form"
    else origin

-- `automationLabel`
unfoldable pub automation_label : String → String
automation_label class =
    if trim_space class == "likely_auto"
    then "Likely automated"
    else if trim_space class == "likely_manual"
    then "Likely manual"
    else if trim_space class == "unknown" || trim_space class == ""
    then "Unknown"
    else class

-- `keyAlgorithmGroup`
unfoldable pub key_algorithm_group : String → String
key_algorithm_group algorithm =
    if to_upper (trim_space algorithm) == "RSA"
    then "rsa"
    else if to_upper (trim_space algorithm) == "ECDSA"
    then "ecdsa"
    else "other"
