-- ===== src/Announce/Inventory.antt =====
-- The inventory of tools/announce_bot.py: `BuildInventory`, `collect_inventory` and the operations
-- of `InventoryCache`. The cache's lock makes each of `mark`, `finish` and `get` one step; a queue
-- of requests links the callers and the worker thread.
pub mod Steps
use orochi.Prelude.{
  ℕ, zero, ◌/◌, ◌-◌, Bool, true, false, not, ◌&&◌, Option, none, some, List, [], ◌∷◌, ◌++◌, leb,
  ◌==◌, if◌then◌else◌,
}
use orochi.Text.{Text, text, cat, is_empty, same, member, show}
use orochi.Text.Number.{Number, parse_int, show_number}
use orochi.Announce.Config.{Project}
use orochi.Text.Dict.{put, get?}
use orochi.Announce.World.{World, git, shell_count, or_else}

abbrev render_loc : World → Text → Option Number → Text
render_loc w value none = value
render_loc w value (some n) =
    if not n.negative && leb 1000 n.magnitude
    then w.thousands n.magnitude ++ text "k"
    else show_number n

-- `_format_loc`
unfoldable pub format_loc : World → Text → Text
format_loc w value = render_loc w value (parse_int value)

-- `measured_at` is 0 until the repository has been measured.
pub record BuildInventory : Type 0 where
  pub modules : Text
  pub test_blocks : Text
  pub loc : Text
  pub commits : Text
  pub head : Text
  pub dirty : Bool
  pub measured_at : ℕ

-- `BuildInventory()`
abbrev pub unmeasured : BuildInventory
unmeasured = record {
  modules = text "pending";
  test_blocks = text "pending";
  loc = text "pending";
  commits = text "?";
  head = [];
  dirty = false;
  measured_at = 0;
}

unfoldable pub collect_inventory : World → Project → BuildInventory
collect_inventory w p = record {
  modules = shell_count w p.module_cmd;
  test_blocks = shell_count w p.test_cmd;
  loc = format_loc w (shell_count w p.loc_cmd);
  commits = or_else (git w p (text "rev-list" ∷ text "--count" ∷ text "HEAD" ∷ [])) (text "?");
  head = git w p (text "rev-parse" ∷ text "HEAD" ∷ []);
  dirty = not (is_empty (git w p (text "status" ∷ text "--porcelain=v1" ∷ [])));
  measured_at = w.now;
}

-- The state of an `InventoryCache`: `_items`, `_queued`, `_requests`.
pub record Cache : Type 0 where
  pub items : List (Text × BuildInventory)
  pub queued : List Text
  pub requests : List Text

abbrev pub empty_cache : Cache
empty_cache = record { items = []; queued = []; requests = [] }

-- The locked part of `request`, where the key is not queued yet.
unfoldable pub mark : Text → Cache → Cache
mark k c = record c { queued = k ∷ c.queued }

-- `self._requests.put(key)`
unfoldable pub enqueue : Text → Cache → Cache
enqueue k c = record c { requests = c.requests ++ k ∷ [] }

-- A whole call of `request`.
unfoldable pub request : Text → Cache → Cache
unfolding mark enqueue
request k c = if member k c.queued then c else enqueue k (mark k c)

abbrev or_unmeasured : Option BuildInventory → BuildInventory
or_unmeasured none = unmeasured
or_unmeasured (some i) = i

-- `get`
unfoldable pub get : Cache → Text → BuildInventory
unfolding get?
get c k = or_unmeasured (get? k c.items)

-- `xs.discard(k)`
unfoldable pub discard : Text → List Text → List Text
discard k [] = []
discard k (x ∷ xs) = let rest = discard k xs in if same k x then rest else x ∷ rest

-- The locked end of a round of `_worker`.
unfoldable pub finish : Text → BuildInventory → Cache → Cache
unfolding discard put
finish k i c = record c { items = put k i c.items; queued = discard k c.queued }

-- The state that `inventory_status` names by its text.
pub data Freshness : Type 0 where
  pending refreshing : Freshness
  measured : Bool → ℕ → Freshness

unfoldable pub freshness : World → Cache → Project → Freshness
unfolding get
freshness w c p =
    let item = get c p.key in
    if item.measured_at == 0
    then pending
    else if not (same item.head (git w p (text "rev-parse" ∷ text "HEAD" ∷ [])))
    then refreshing
    else measured item.dirty ((w.now - item.measured_at) / 1000)

abbrev status_text : Freshness → Text
status_text pending = text "inventory pending"
status_text refreshing = text "inventory refreshing"
status_text (measured dirty age) = cat (
    (if dirty then text "dirty" else text "clean")
    ∷ text ", measured "
    ∷ show age
    ∷ text "s ago"
    ∷ [])

-- `inventory_status`
unfoldable pub inventory_status : World → Cache → Project → Text
inventory_status w c p = status_text (freshness w c p)

abbrev label_text : Cache → Project → Freshness → Text
label_text c p pending = text "inventory updating"
label_text c p refreshing = text "inventory updating"
label_text c p (measured dirty age) = cat ((get c p.key).test_blocks ∷ text " " ∷ p.test_label ∷ [])

-- `inventory_label`
unfoldable pub inventory_label : World → Cache → Project → Text
inventory_label w c p = label_text c p (freshness w c p)
