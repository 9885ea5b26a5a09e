-- ===== src/Caster/Routes/Operations.antt =====
-- `/admin/disable` and `/admin/enable` in `_handle_http` of src/caster.py, and the page of
-- `/admin/rovers`.
use babilcors.Prelude.{
  ℕ, ◌-◌, ◌*◌, min, max, Bool, not, none, some, List, [], take, drop, if◌then◌else◌, or_else,
}
use babilcors.Json.{
  Text, codes, Value, text, array, object, Items, Fields, get, put, get_or_null, or_default,
  as_object, list_of, has_item, append, remove_item, same_text,
}
use babilcors.Caster.Routes.{
  Host, str, State, Updated, done, refused, update_config, Answer, status, breaks, answer_by,
}
use babilcors.Caster.Routes.Geojson.{or_nil}

-- The list `disabled_mountpoints` of `security` is changed, and made if it is missing.
unfoldable pub change_disabled : (Items → Items) → Fields → Updated
change_disabled change raw = elim (as_object (or_default (codes "security") raw)) [
  | none ↦ refused
  | some sec ↦ elim (list_of (or_nil (get_or_null (codes "disabled_mountpoints") sec))) [
    | none ↦ refused
    | some cur ↦ done (
        put (codes "security")
          (object (put (codes "disabled_mountpoints") (array (change cur)) sec)) raw)
  ]
]

unfoldable pub disabled_with : Text → Items → Items
disabled_with mp cur = if not (has_item mp cur) then append cur (text mp) else cur

unfoldable pub disabled_without : Text → Items → Items
disabled_without mp cur = if has_item mp cur then remove_item mp cur else cur

module _ (H : Host) (check : Value → Bool) where
  -- `str(body_json.get("mountpoint", ""))`.
  unfoldable pub mountpoint_of : Fields → Text
  mountpoint_of body = str H (or_else (get (codes "mountpoint") body) (text []))

  unfoldable pub change_mountpoint : (Text → Items → Items) → Fields → State → State × Answer
  change_mountpoint change body s =
      if same_text (mountpoint_of body) []
      then (s, status 400)
      else answer_by (status 200) (status 400) breaks
          (update_config check (change_disabled (change (mountpoint_of body))) s)

  unfoldable pub disable : Fields → State → State × Answer
  disable = change_mountpoint disabled_with

  unfoldable pub enable : Fields → State → State × Answer
  enable = change_mountpoint disabled_without

-- The rovers of a page; `page` and `limit` as they are asked for.
unfoldable pub page_of {ℓ} : {A : Type ℓ} → ℕ → ℕ → List A → List A
page_of page limit items =
    let size = max (min limit 500) 1 in take size (drop ((max page 1 - 1) * size) items)
