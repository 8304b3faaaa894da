-- ===== src/DeliveryRecovery/Menu.antt =====
-- `list_items`, `retry_selected` and `show_recovery_menu` of manager/recovery.py.
pub mod Confirmation
mod Examples
use xserver_mail_lineworks.Shared.{
  ℕ, zero, suc, ◌+◌, ◌*◌, ◌-◌, Bool, true, false, not, ◌&&◌, ◌||◌, Option, none, some, List, [],
  ◌∷◌, ◌++◌, ◌==◌, nat_eq, list_eq, nat_beq, leb, ltb, length, all, any, if◌then◌else◌, Text, codes,
  is_digit, is_sha256, Json, nat, Fields, get_field, ◌^◌,
}
use xserver_mail_lineworks.Shared.Exec.{
  Exec, Answer, value, raised, proceed, pure, raise, require, ◌>>=◌, ◌>>◌,
}
use xserver_mail_lineworks.DeliveryRecovery.{
  Failure, unclear, invalid_choice, unknown_result, type_error, no_input, bad_time, overflow,
  Output, read_output, rows_of, result_of, text_at, is_retryable,
}

-- The lines of the menu. A row is shown by its number and its fields; how its time, the first twelve
-- characters of its id and its state are spelled is left out.
pub data Message : Type 0 where
  none_stored ask_number bad_number not_retryable cancelled accepted not_sent operation_failed :
      Message
  row_line : ℕ → Fields → Message
  ask_phrase : Text → Message

pub data Event : Type 0 where
  called : List Text → Event
  shown : Message → Event

pub record Console (W : Type 0) : Type 0 where
  pub inputs : List Text
  pub events : List Event
  pub world : W

abbrev pub list_arguments : List Text
list_arguments = codes "--outbox-list" ∷ []

abbrev pub retry_arguments : Text → Text → List Text
retry_arguments ident revision = codes "--outbox-retry" ∷ ident ∷ revision ∷ []

-- `str.strip()`
abbrev is_space : ℕ → Bool
is_space c =
    (leb 9 c && leb c 13)
    || (leb 28 c && leb c 32)
    || nat_beq c 133
    || nat_beq c 160
    || nat_beq c 5760
    || (leb 8192 c && leb c 8202)
    || nat_beq c 8232
    || nat_beq c 8233
    || nat_beq c 8239
    || nat_beq c 8287
    || nat_beq c 12288

abbrev pub strip_left : Text → Text
strip_left [] = []
strip_left (c ∷ t) = let rest = strip_left t in if is_space c then rest else c ∷ t

abbrev cons_unless_space : ℕ → Text → Text
cons_unless_space c [] = if is_space c then [] else c ∷ []
cons_unless_space c t = c ∷ t

abbrev pub strip_right : Text → Text
strip_right [] = []
strip_right (c ∷ t) = cons_unless_space c (strip_right t)

abbrev decimal : ℕ → Text → ℕ
decimal n [] = n
decimal n (c ∷ s) = decimal (n * 10 + (c - 48)) s

-- What the selection says; `int` refuses more than 4,300 digits with a `ValueError`.
pub data Choice : Type 0 where
  back bad too_long : Choice
  numbered : ℕ → Choice

abbrev read_choice : Text → Choice
read_choice [] = back
read_choice (c ∷ s) =
    if all is_digit (c ∷ s)
    then (if ltb 4300 (length (c ∷ s)) then too_long else numbered (decimal 0 (c ∷ s)))
    else bad

unfoldable pub choose : Text → Choice
unfolding all
choose line = read_choice (strip_left (strip_right line))

-- `rows[n - 1]` for `1 <= n <= len(rows)`
unfoldable pub row_at : ℕ → List Fields → Option Fields
row_at n [] = none
row_at zero (r ∷ rs) = none
row_at (suc zero) (r ∷ rs) = some r
row_at (suc (suc n)) (r ∷ rs) = row_at (suc n) rs

abbrev pub text_or_empty : Text → Fields → Text
text_or_empty k r = elim (text_at k r) [ none ↦ [] | some t ↦ t ]

abbrev pub row_id : Fields → Text
row_id r = text_or_empty (codes "id") r

abbrev pub row_revision : Fields → Text
row_revision r = text_or_empty (codes "revision") r

-- `"再送 " + row["id"]`
abbrev pub phrase : Fields → Text
phrase r = 20877 ∷ 36865 ∷ 32 ∷ row_id r

module _ {W : Type 0} (run_trusted : List Text → W → Output × W) where
  abbrev M : Type 0 → Type 0
  M A = Exec Failure (Console W) A

  -- `_call`
  unfoldable pub call : List Text → M Fields
  call arguments c =
      let (o, w) = run_trusted arguments c.world in
      (read_output o, record c { events = called arguments ∷ c.events; world = w })

  abbrev need_rows : Option (List Fields) → M (List Fields)
  need_rows none = raise unclear
  need_rows (some rs) = pure rs

  unfoldable pub list_items : M (List Fields)
  list_items = do v ← call list_arguments; need_rows (rows_of v)

  abbrev answered : Answer Failure Bool → M Bool
  answered a c = (a, c)

  unfoldable pub retry_selected : Text → Text → M Bool
  retry_selected ident revision = do
    require (is_sha256 ident && is_sha256 revision) invalid_choice
    v ← call (retry_arguments ident revision)
    answered (result_of ident v)

  unfoldable pub show : Message → M (Unit {0})
  show m c = (value tt, record c { events = shown m ∷ c.events })

  abbrev next_input : List Text → M Text
  next_input [] c = (raised no_input, c)
  next_input (t ∷ ts) c = (value t, record c { inputs = ts })

  unfoldable pub read_line : M Text
  read_line c = next_input c.inputs c

  abbrev created_at : Option Json → ℕ
  created_at (some (nat seconds)) = seconds
  created_at _ = 0

  -- `datetime.fromtimestamp(seconds, timezone(timedelta(hours=9)))`: the year 9999 ends in Japan at
  -- 253402268400 seconds and nine hours later in UTC. What 64 bits do not hold is an `OverflowError`,
  -- too.
  unfoldable pub from_timestamp : ℕ → M (Unit {0})
  from_timestamp seconds =
      if ltb seconds 253402268400
      then pure tt
      else if leb 253402300800 seconds && ltb seconds (2 ^ 63)
      then raise bad_time
      else raise overflow

  unfoldable pub show_rows : ℕ → List Fields → M (Unit {0})
  show_rows n [] = pure tt
  show_rows n (r ∷ rs) = do
    from_timestamp (created_at (get_field (codes "created_at") r))
    show (row_line n r)
    show_rows (suc n) rs

  unfoldable pub send_again : Fields → M (Unit {0})
  send_again r = do
    delivered ← retry_selected (row_id r) (row_revision r)
    show (if delivered then accepted else not_sent)

  unfoldable pub confirm : Fields → M (Unit {0})
  confirm r = do
    show (ask_phrase (phrase r))
    line ← read_line
    if line == phrase r then send_again r else show cancelled

  unfoldable pub at_row : Option Fields → M (Unit {0})
  at_row none = show bad_number
  at_row (some r) = if is_retryable r then confirm r else show not_retryable

  unfoldable pub chosen : List Fields → Choice → M (Unit {0})
  chosen rows back = pure tt
  chosen rows bad = show bad_number
  chosen rows too_long = raise invalid_choice
  chosen rows (numbered n) = at_row (row_at n rows)

  unfoldable pub offer : List Fields → M (Unit {0})
  offer [] = show none_stored
  offer (r ∷ rs) = do
    show_rows 1 (r ∷ rs)
    show ask_number
    line ← read_line
    chosen (r ∷ rs) (choose line)

  -- `except (RuntimeError, ValueError, OSError)`
  abbrev is_caught : Failure → Bool
  is_caught type_error = false
  is_caught no_input = false
  is_caught overflow = false
  is_caught _ = true

  abbrev handle : Answer Failure (Unit {0}) × Console W → Answer Failure (Unit {0}) × Console W
  handle (value u, c) = (value u, c)
  handle (raised e, c) =
      if is_caught e
      then (value tt, record c { events = shown operation_failed ∷ c.events })
      else (raised e, c)

  unfoldable pub show_recovery_menu : M (Unit {0})
  show_recovery_menu c = handle ((list_items >>= offer) c)
