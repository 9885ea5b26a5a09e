-- ===== src/Caster/Routes/Resources.antt =====
-- Users, tiers and mountpoints in `_handle_http` of src/caster.py: the updaters of the file, and
-- the answers.
use babilcors.Prelude.{
  Bool, not, ◌||◌, Option, none, some, List, [], ◌∷◌, if◌then◌else◌, or_else, ◌>>=◌,
}
use babilcors.Prelude.Int.{ℤ, pos}
use babilcors.Json.{
  Text, codes, Value, int, text, array, object, Items, Fields, end, field, get, put, del, has_key,
  truthy, as_object, get_or_null, or_default, or_empty, list_of, has_item, append, remove_item, nil,
  same_text,
}
use babilcors.Caster.Routes.{
  new_user, user_patch, new_tier, tier_patch, new_mountpoint, Host, str, State, Updated, done,
  refused, update_config, Answer, status, error, breaks, answer_by,
}

-- A new entry under a key of the file, which is made if it is missing.
unfoldable pub create_in : Text → Text → Value → Fields → Updated
create_in key name v raw = elim (as_object (or_default key raw)) [
  | none ↦ refused
  | some es ↦ if has_key name es then refused else done (put key (object (put name v es)) raw)
]

unfoldable pub delete_in : Text → Text → Fields → Updated
delete_in key name raw = elim (as_object (or_empty key raw)) [
  | none ↦ refused
  | some es ↦ if has_key name es then done (put key (object (del name es)) raw) else refused
]

-- The entry is changed, if there is one that counts as true.
unfoldable pub change_in : Text → Text → (Value → Option Value) → Fields → Updated
change_in key name change raw = elim (as_object (or_empty key raw)) [
  | none ↦ refused
  | some es ↦
      if not (truthy (get_or_null name es)) then refused else elim (change (get_or_null name es)) [
        | none ↦ refused
        | some v ↦ done (put key (object (put name v es)) raw)
      ]
]

-- The fields of the body with one of the names, in the order of the names.
unfoldable pub picked : List Text → Fields → Fields
picked [] body = end
picked (k ∷ ks) body = elim (get k body) [
  | none ↦ picked ks body
  | some v ↦ field k v (picked ks body)
]

-- They replace those of the entry.
unfoldable pub assign : Fields → Fields → Fields
assign end fs = fs
assign (field k v rest) fs = assign rest (put k v fs)

-- Only an object takes fields; with none, nothing is done.
unfoldable pub assign_to : Fields → Value → Option Value
assign_to end v = some v
assign_to (field k v rest) (object fs) = some (object (assign (field k v rest) fs))
assign_to (field k v rest) _ = none

abbrev pub user_fields : List Text
user_fields =
    codes "password"
    ∷ codes "password_sha256"
    ∷ codes "password_hash"
    ∷ codes "tier"
    ∷ codes "mountpoints"
    ∷ codes "geofence_id"
    ∷ codes "role"
    ∷ []

abbrev patch_fields : List Text
patch_fields =
    codes "tier"
    ∷ codes "password"
    ∷ codes "password_sha256"
    ∷ codes "password_hash"
    ∷ codes "mountpoints"
    ∷ codes "geofence_id"
    ∷ codes "role"
    ∷ []

-- A path segment that is there and not empty.
abbrev pub named : Option Text → Option Text
named none = none
named (some []) = none
named (some (c ∷ s)) = some (c ∷ s)

-- `int(body_json.get(k, 0) or 0)`.
unfoldable pub int_field : Host → Fields → Text → Option ℤ
int_field H body k =
    if truthy (get_or_null k body) then H.to_int (get_or_null k body) else some (pos 0)

module _ (H : Host) (check : Value → Bool) where
  unfoldable pub post_user : Fields → State → State × Answer
  post_user body s =
      if not (H.conforms new_user body)
      then (s, error 400)
      else answer_by (status 201) (status 400) (error 409) (
          update_config check
            (create_in (codes "users") (str H (get_or_null (codes "username") body))
              (object (picked user_fields body)))
            s)

  unfoldable pub patch_user : Text → Fields → State → State × Answer
  patch_user ident body s =
      if not (H.conforms user_patch body)
      then (s, error 400)
      else answer_by (status 200) (status 400) (error 404) (
          update_config check
            (change_in (codes "users") ident (assign_to (picked patch_fields body))) s)

  -- The answer does not depend on whether the file has been changed.
  unfoldable pub delete_entry : Text → Text → State → State × Answer
  delete_entry key ident s =
      answer_by (status 204) (status 204) (error 404) (update_config check (delete_in key ident) s)

  unfoldable pub new_tier_entry : Fields → Option Value
  new_tier_entry body = int_field H body (codes "rate_limit_bps") >>= λ r.
      int_field H body (codes "max_epochs_per_minute") >>= λ e.
      int_field H body (codes "max_queue_bytes") >>= λ q. some (
        object (
          field (codes "rate_limit_bps") (int r) (
            field (codes "max_epochs_per_minute") (int e)
              (field (codes "max_queue_bytes") (int q) end))))

  unfoldable pub create_tier : Text → Fields → Fields → Updated
  create_tier name body raw = elim (new_tier_entry body) [
    | none ↦ refused
    | some v ↦ create_in (codes "tiers") name v raw
  ]

  unfoldable pub post_tier : Fields → State → State × Answer
  post_tier body s =
      if not (H.conforms new_tier body)
      then (s, error 400)
      else answer_by (status 201) (status 400) (error 409)
          (update_config check (create_tier (str H (get_or_null (codes "name") body)) body) s)

  -- `t[k] = int(v)` for all fields of the body.
  unfoldable pub all_ints : Fields → Option Fields
  all_ints end = some end
  all_ints (field k v rest) = H.to_int v >>= λ n. all_ints rest >>= λ fs. some (field k (int n) fs)

  unfoldable pub assign_ints : Fields → Value → Option Value
  assign_ints body v = all_ints body >>= λ fs. assign_to fs v

  unfoldable pub patch_tier : Text → Fields → State → State × Answer
  patch_tier ident body s =
      if not (H.conforms tier_patch body)
      then (s, error 400)
      else answer_by (status 200) (status 400) (error 404)
          (update_config check (change_in (codes "tiers") ident (assign_ints body)) s)

  -- `list(raw.get("sources", {}).get("mountpoints", []))`.
  unfoldable pub listed : Fields → Option Items
  listed raw = as_object (or_default (codes "sources") raw) >>= λ src.
      list_of (or_else (get (codes "mountpoints") src) (array nil))

  unfoldable pub set_mountpoints : Items → Fields → Updated
  set_mountpoints mps raw = elim (as_object (or_default (codes "sources") raw)) [
    | none ↦ refused
    | some src ↦
        done (put (codes "sources") (object (put (codes "mountpoints") (array mps) src)) raw)
  ]

  unfoldable pub add_mountpoint : Text → Fields → Updated
  add_mountpoint name raw = elim (listed raw) [
    | none ↦ refused
    | some mps ↦ if has_item name mps then refused else set_mountpoints (append mps (text name)) raw
  ]

  unfoldable pub drop_mountpoint : Text → Fields → Updated
  drop_mountpoint name raw = elim (listed raw) [
    | none ↦ refused
    | some mps ↦ if has_item name mps then set_mountpoints (remove_item name mps) raw else refused
  ]

  unfoldable pub post_mountpoint : Fields → State → State × Answer
  post_mountpoint body s =
      if not (H.conforms new_mountpoint body)
      then (s, error 400)
      else answer_by (status 201) (status 400) (error 409)
          (update_config check (add_mountpoint (str H (get_or_null (codes "name") body))) s)

  unfoldable pub delete_mountpoint : Text → State → State × Answer
  delete_mountpoint ident s =
      answer_by (status 204) (status 204) (error 404)
        (update_config check (drop_mountpoint ident) s)

  -- `float` of coordinates, `int` of two numbers, and all else as it is.
  unfoldable pub meta_value : Text → Value → Option Value
  meta_value k v =
      if same_text k (codes "latitude") || same_text k (codes "longitude")
      then (H.to_float v >>= λ x. some (H.of_float x))
      else if same_text k (codes "bitrate") || same_text k (codes "carrier")
      then (H.to_int v >>= λ n. some (int n))
      else some v

  unfoldable pub meta_values : Fields → Option Fields
  meta_values end = some end
  meta_values (field k v rest) =
      meta_value k v >>= λ w. meta_values rest >>= λ fs. some (field k w fs)

  unfoldable pub merge_meta : Text → Fields → Fields → Updated
  merge_meta ident body raw =
      or_else
        (as_object (or_default (codes "sourcetable") raw) >>= λ st.
          as_object (or_default (codes "mountpoints_meta") st) >>= λ mm. meta_values body >>= λ fs.
          assign_to fs (or_default ident mm) >>= λ item. some (
            done (
              put (codes "sourcetable")
                (object (put (codes "mountpoints_meta") (object (put ident item mm)) st)) raw)))
        refused

  unfoldable pub post_meta : Text → Fields → State → State × Answer
  post_meta ident body s =
      answer_by (status 200) (status 400) breaks (update_config check (merge_meta ident body) s)
