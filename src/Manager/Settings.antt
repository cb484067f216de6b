-- ===== src/Manager/Settings.antt =====
-- src/manager/group_permission.rs, src/manager/link_state.rs and src/manager/trust_mode.rs: the texts of
-- their values.
use sigchat.Base.{◌≡◌, refl, Option, none, some, if◌then◌else◌}
use sigchat.Text.{Bytes, codes, bytes_eq}

pub data GroupPermission : Type 0 where
  every_member only_admins : GroupPermission

unfoldable pub group_permission_text : GroupPermission → Bytes
group_permission_text every_member = codes "EveryMember"
group_permission_text only_admins = codes "OnlyAdmins"

unfoldable pub group_permission_from_str : Bytes → Option GroupPermission
group_permission_from_str input =
    if bytes_eq input (codes "EveryMember")
    then some every_member
    else if bytes_eq input (codes "OnlyAdmins")
    then some only_admins
    else none

pub data LinkState : Type 0 where
  enabled enabled_with_approval disabled : LinkState

unfoldable pub link_state_text : LinkState → Bytes
link_state_text enabled = codes "Enabled"
link_state_text enabled_with_approval = codes "EnabledWithApproval"
link_state_text disabled = codes "Disabled"

unfoldable pub link_state_from_str : Bytes → Option LinkState
link_state_from_str input =
    if bytes_eq input (codes "Enabled")
    then some enabled
    else if bytes_eq input (codes "EnabledWithApproval")
    then some enabled_with_approval
    else if bytes_eq input (codes "Disabled")
    then some disabled
    else none

pub data TrustMode : Type 0 where
  on_first_use always never : TrustMode

unfoldable pub trust_mode_text : TrustMode → Bytes
trust_mode_text on_first_use = codes "OnFirstUse"
trust_mode_text always = codes "Always"
trust_mode_text never = codes "Never"

unfoldable pub trust_mode_from_str : Bytes → Option TrustMode
trust_mode_from_str input =
    if bytes_eq input (codes "OnFirstUse")
    then some on_first_use
    else if bytes_eq input (codes "Always")
    then some always
    else if bytes_eq input (codes "Never")
    then some never
    else none

group_permission_round :
    (x : GroupPermission) → group_permission_from_str (group_permission_text x) ≡ some x
unfolding group_permission_from_str group_permission_text bytes_eq
group_permission_round every_member = refl
group_permission_round only_admins = refl

link_state_round : (x : LinkState) → link_state_from_str (link_state_text x) ≡ some x
unfolding link_state_from_str link_state_text bytes_eq
link_state_round enabled = refl
link_state_round enabled_with_approval = refl
link_state_round disabled = refl

trust_mode_round : (x : TrustMode) → trust_mode_from_str (trust_mode_text x) ≡ some x
unfolding trust_mode_from_str trust_mode_text bytes_eq
trust_mode_round on_first_use = refl
trust_mode_round always = refl
trust_mode_round never = refl

-- Each value of the three settings is read back from its text.
pub from_str-text :
    (g : GroupPermission) (l : LinkState) (t : TrustMode)
    → (group_permission_from_str (group_permission_text g) ≡ some g)
      × (link_state_from_str (link_state_text l) ≡ some l)
      × (trust_mode_from_str (trust_mode_text t) ≡ some t)
from_str-text g l t = (group_permission_round g, link_state_round l, trust_mode_round t)
