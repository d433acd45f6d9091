-- ===== src/Consoles/Unattended.antt =====
-- The decisions of platform/3ds/source/autosync_steps.c, batch_steps.c and welcome_steps.c: what a run over a
-- library may do on its own, and what the screens offer.
pub mod Silent
use dae_moon.Prelude.{
  ℕ, Bool, true, false, ◌&&◌, not, ◌≡◌, refl, Option, none, some, List, [], ◌∷◌, length, get_or,
  ltb, if◌then◌else◌,
}
use dae_moon.Messages.{StrId}
use dae_moon.Sync.Options.{Policy, Opts}

-- daemoon_3ds_autosync_opts
abbrev pub autosync_opts : Opts
autosync_opts = record {
  conflict = Policy.defer;
  upload_confirmed = true;
  restore_confirmed = true;
}

-- daemoon_3ds_autosync_due
unfoldable pub autosync_due : Bool → Bool → Bool → Bool → Bool
autosync_due enabled can_sync cancel_held unattended =
    enabled && can_sync && not cancel_held && not unattended

abbrev k_op_labels : List StrId
k_op_labels = StrId.batch_backup ∷ StrId.batch_sync ∷ []

abbrev k_op_hints : List StrId
k_op_hints = StrId.batch_backup_hint ∷ StrId.batch_sync_hint ∷ []

abbrev k_policy_labels : List StrId
k_policy_labels = StrId.batch_policy_ask ∷ StrId.batch_policy_local ∷ StrId.batch_policy_server ∷ []

abbrev k_policy_hints : List StrId
k_policy_hints =
    StrId.batch_policy_ask_hint ∷ StrId.batch_policy_local_hint ∷ StrId.batch_policy_server_hint
    ∷ []

abbrev k_policies : List Policy
k_policies = Policy.ask_user ∷ Policy.keep_local ∷ Policy.keep_server ∷ []

-- daemoon_3ds_batch_ops
abbrev pub batch_ops : ℕ
batch_ops = length k_op_labels

-- daemoon_3ds_batch_op_label
unfoldable pub batch_op_label : ℕ → StrId
batch_op_label index =
    get_or k_op_labels (if ltb index batch_ops then index else 0) StrId.batch_backup

-- daemoon_3ds_batch_op_hint
unfoldable pub batch_op_hint : ℕ → StrId
batch_op_hint index =
    get_or k_op_hints (if ltb index batch_ops then index else 0) StrId.batch_backup_hint

-- daemoon_3ds_batch_policies
abbrev pub batch_policies : ℕ
batch_policies = length k_policy_labels

-- daemoon_3ds_batch_policy_label
unfoldable pub batch_policy_label : ℕ → StrId
batch_policy_label index =
    get_or k_policy_labels (if ltb index batch_policies then index else 0) StrId.batch_policy_ask

-- daemoon_3ds_batch_policy_hint
unfoldable pub batch_policy_hint : ℕ → StrId
batch_policy_hint index =
    get_or k_policy_hints (if ltb index batch_policies then index else 0)
      StrId.batch_policy_ask_hint

-- daemoon_3ds_batch_policy
unfoldable pub batch_policy : ℕ → Policy
batch_policy index =
    get_or k_policies (if ltb index batch_policies then index else 0) Policy.ask_user

abbrev k_pages : List StrId
k_pages = StrId.welcome_what ∷ StrId.welcome_safe ∷ StrId.welcome_when ∷ []

abbrev k_choice_labels : List StrId
k_choice_labels = StrId.welcome_opt_qr ∷ StrId.welcome_opt_code ∷ StrId.welcome_opt_later ∷ []

abbrev k_choice_hints : List StrId
k_choice_hints =
    StrId.welcome_opt_qr_hint ∷ StrId.welcome_opt_code_hint ∷ StrId.welcome_opt_later_hint ∷ []

-- daemoon_3ds_welcome_page, of the daemoon_3ds_welcome_pages pages
unfoldable pub welcome_page : ℕ → StrId
welcome_page index = get_or k_pages index StrId.welcome_what

-- daemoon_3ds_welcome_choice_label, of the daemoon_3ds_welcome_choices choices
unfoldable pub welcome_choice_label : ℕ → StrId
welcome_choice_label index = get_or k_choice_labels index StrId.welcome_opt_later

-- daemoon_3ds_welcome_choice_hint
unfoldable pub welcome_choice_hint : ℕ → StrId
welcome_choice_hint index = get_or k_choice_hints index StrId.welcome_opt_later_hint

-- daemoon_3ds_welcome_needed, of the flag in the configuration; `none` is a NULL configuration.
unfoldable pub welcome_needed : Option Bool → Bool
welcome_needed none = false
welcome_needed (some welcomed) = not welcomed
