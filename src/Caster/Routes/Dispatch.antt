-- ===== src/Caster/Routes/Dispatch.antt =====
-- Which route of the admin API a request takes in `_handle_http` of src/caster.py, after the
-- gate, the rate limit and the routes for tokens. The routes that only read are left out, and so
-- are kick and audit (Admin, Events) and the lines of the audit log.
use babilcors.Prelude.{
  Bool, true, false, not, ◌&&◌, ◌||◌, Option, none, some, String, List, [], get_elem?, get_or,
  if◌then◌else◌,
}
use babilcors.Prelude.Dict.{string_eq}
use babilcors.Jwt.{role_allows}
use babilcors.Net.{starts_with}
use babilcors.Text.{split, lstrip_char, rstrip_char}
use babilcors.Json.{Text, codes, Value, Fields, same_text}
use babilcors.Caster.Routes.{
  Host, State, Answer, error, passes, Method, get, post, patch, delete, other, Resource, users,
  tiers, mountpoints, geofences,
}
use babilcors.Caster.Routes.Resources.{
  named, post_user, patch_user, delete_entry, post_tier, patch_tier, post_mountpoint,
  delete_mountpoint, post_meta,
}
use babilcors.Caster.Routes.Geofences.{Caller, post_geofence, patch_geofence, delete_geofence}
use babilcors.Caster.Routes.Operations.{disable, enable}

-- A request with the role, in lower case, and the subject of its claims. The body is an object.
pub record Request : Type 0 where
  pub method : Method
  pub path : Text
  pub has_query : Bool
  pub body : Fields
  pub role : String
  pub sub : Text

-- `path.strip("/").split("/")`.
unfoldable pub parts_of : Text → List Text
parts_of path = split 47 (rstrip_char 47 (lstrip_char 47 path))

unfoldable pub resource_named : Text → Option Resource
resource_named t =
    if same_text t (codes "users")
    then some users
    else if same_text t (codes "tiers")
    then some tiers
    else if same_text t (codes "mountpoints")
    then some mountpoints
    else if same_text t (codes "geofences")
    then some geofences
    else none

unfoldable pub resource_of : List Text → Option Resource
resource_of parts = resource_named (get_or parts 1 [])

-- The segment after the resource, if it is there and not empty; `is_bare` if it is not there.
unfoldable pub ident_of : List Text → Option Text
ident_of parts = named (get_elem? parts 2)

unfoldable pub is_bare : List Text → Bool
is_bare parts = elim (get_elem? parts 2) [ none ↦ true | some t ↦ false ]

unfoldable pub is_meta : List Text → Bool
is_meta parts = same_text (get_or parts 3 []) (codes "meta")

unfoldable pub is_write : Method → Bool
is_write post = true
is_write patch = true
is_write delete = true
is_write get = false
is_write other = false

unfoldable pub may_edit : String → Bool
may_edit role = string_eq.beq role "geofence_editor"

unfoldable pub caller : Request → Caller
caller r = record {
  is_admin = role_allows r.role true;
  is_editor = may_edit r.role;
  sub_user = r.sub;
}

-- The subjects of callers without a token of their own.
unfoldable pub is_nobody : Text → Bool
is_nobody sub = same_text sub [] || same_text sub (codes "public") || same_text sub (codes "static")

unfoldable pub is_geofences : Resource → Bool
is_geofences geofences = true
is_geofences _ = false

-- The exact paths of the operations, whose writers are checked.
unfoldable pub is_operation : Text → Bool
is_operation path =
    same_text path (codes "/admin/disable")
    || same_text path (codes "/admin/enable")
    || same_text path (codes "/admin/kick")
    || same_text path (codes "/admin/audit")

unfoldable pub is_post : Method → Bool
is_post post = true
is_post _ = false

module _ (H : Host) (check : Value → Bool) where
  unfoldable pub on_users : Method → Bool → Option Text → Fields → State → State × Answer
  on_users post true ident body s = post_user H check body s
  on_users patch bare (some ident) body s = patch_user H check ident body s
  on_users delete bare (some ident) body s = delete_entry H check (codes "users") ident s
  on_users _ bare ident body s = (s, passes)

  unfoldable pub on_tiers : Method → Bool → Option Text → Fields → State → State × Answer
  on_tiers post true ident body s = post_tier H check body s
  on_tiers patch bare (some ident) body s = patch_tier H check ident body s
  on_tiers delete bare (some ident) body s = delete_entry H check (codes "tiers") ident s
  on_tiers _ bare ident body s = (s, passes)

  unfoldable pub on_mountpoints :
      Method → Bool → Option Text → Bool → Fields → State → State × Answer
  on_mountpoints post true ident meta body s = post_mountpoint H check body s
  on_mountpoints post false (some ident) true body s = post_meta H check ident body s
  on_mountpoints patch bare (some ident) true body s = post_meta H check ident body s
  on_mountpoints delete bare (some ident) meta body s = delete_mountpoint H check ident s
  on_mountpoints _ bare ident meta body s = (s, passes)

  unfoldable pub edit_geofences :
      Method → Bool → Option Text → Caller → Fields → State → State × Answer
  edit_geofences post true ident who body s = post_geofence H check who body s
  edit_geofences patch bare (some ident) who body s = patch_geofence H check who ident body s
  edit_geofences delete bare (some ident) who body s = delete_geofence H check who ident s
  edit_geofences _ bare ident who body s = (s, passes)

  unfoldable pub on_geofences : Request → Caller → Bool → Option Text → State → State × Answer
  on_geofences r who bare ident s =
      if is_write r.method && not (who.is_admin || who.is_editor)
      then (s, error 403)
      else if who.is_editor && is_nobody r.sub
      then (s, error 403)
      else edit_geofences r.method bare ident who r.body s

  unfoldable pub on_resource :
      Request → Resource → Bool → Option Text → Bool → State → State × Answer
  on_resource r users bare ident meta s = on_users r.method bare ident r.body s
  on_resource r tiers bare ident meta s = on_tiers r.method bare ident r.body s
  on_resource r mountpoints bare ident meta s = on_mountpoints r.method bare ident meta r.body s
  on_resource r geofences bare ident meta s = on_geofences r (caller r) bare ident s

  unfoldable pub guarded : Request → Resource → State → State × Answer
  guarded r res s =
      if not (is_geofences res) && is_write r.method && not (role_allows r.role true)
      then (s, error 403)
      else on_resource r res (is_bare (parts_of r.path)) (ident_of (parts_of r.path))
          (is_meta (parts_of r.path)) s

  unfoldable pub operate : Request → State → State × Answer
  operate r s =
      if starts_with (codes "/admin/disable") r.path
      then if is_post r.method then disable H check r.body s else (s, error 405)
      else if starts_with (codes "/admin/enable") r.path
      then if is_post r.method then enable H check r.body s else (s, error 405)
      else (s, passes)

  unfoldable pub on_operation : Request → State → State × Answer
  on_operation r s =
      if is_operation r.path && is_post r.method && not (role_allows r.role true)
      then (s, error 403)
      else operate r s

  unfoldable pub or_operation : Request → State × Answer → State × Answer
  or_operation r (s, passes) = on_operation r s
  or_operation r (s, a) = (s, a)

  unfoldable pub find_route : Request → Option Resource → State → State × Answer
  find_route r none s = on_operation r s
  find_route r (some res) s = or_operation r (guarded r res s)

  unfoldable pub dispatch : Request → State → State × Answer
  dispatch r s =
      if r.has_query
        && not (
            starts_with (codes "/admin/rovers") r.path
            || starts_with (codes "/admin/geofences") r.path)
      then (s, error 400)
      else find_route r (resource_of (parts_of r.path)) s
