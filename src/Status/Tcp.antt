-- ===== src/Status/Tcp.antt =====
-- Status that a device answers itself: providers/tcp/src/status.rs. A response is the text that
-- `String::from_utf8_lossy` makes of it.
pub mod Laws
use Prim.Native.Nat.{bit_and}
use kiln_print.Prelude.{
  ℕ, String, Bool, true, false, not, ◌&&◌, ◌||◌, Option, none, some, List, [], ◌∷◌, ◌++◌, any, keep,
  map, length, get_elem?, leb, ◌==◌, str_eq, if◌then◌else◌, split,
}
use kiln_print.Printer.{
  PrinterCondition, PrinterState, paused, error, offline, paper_out, door_open, head_open,
  ribbon_out, paper_low,
}
use kiln_print.Engine.Submit.JobNames.{trim_start, trim_end}
use kiln_print.Status.Order.{contains, sort_conditions, dedup}
use kiln_print.Status.Flags.{is_set}

pub record DeviceStatus : Type 0 where
  pub state : PrinterState
  pub conditions : List PrinterCondition

abbrev pub stops_device : PrinterCondition → Bool
stops_device PrinterCondition.paper_out = true
stops_device PrinterCondition.head_open = true
stops_device PrinterCondition.ribbon_out = true
stops_device PrinterCondition.error = true
stops_device PrinterCondition.door_open = true
stops_device _ = false

unfoldable pub device_state : List PrinterCondition → PrinterState
device_state conditions =
    if contains PrinterCondition.offline conditions
    then PrinterState.offline
    else if any stops_device conditions
    then PrinterState.error
    else if contains PrinterCondition.paused conditions
    then PrinterState.paused
    else PrinterState.ready

unfoldable pub from_conditions : List PrinterCondition → DeviceStatus
unfolding device_state sort_conditions dedup
from_conditions found =
    let conditions = dedup (sort_conditions found) in
    record { state = device_state conditions; conditions = conditions }

abbrev push_if : Bool → PrinterCondition → List PrinterCondition
push_if b c = if b then c ∷ [] else []

abbrev stx : ℕ
stx = 2

abbrev etx : ℕ
etx = 3

abbrev comma : ℕ
comma = 44

abbrev head_of : List String → String
head_of [] = ""
head_of (s ∷ ss) = s

unfoldable pub trim_text : String → String
unfolding trim_start trim_end
trim_text s = trim_end (trim_start s)

unfoldable pub blocks_of : String → List (List String)
unfolding split trim_text
blocks_of response =
    map (λ b. map trim_text (split comma b))
      (keep (λ b. not (str_eq b ""))
        (map (λ b. trim_text (head_of (split etx b))) (split stx response)))

abbrev is_one : Option String → Bool
is_one none = false
is_one (some v) = str_eq v "1"

abbrev flag : List String → ℕ → Bool
flag fields i = is_one (get_elem? fields i)

unfoldable pub zpl_conditions : List String → List String → List PrinterCondition
zpl_conditions first second =
    push_if (flag first 1) PrinterCondition.paper_out
    ++ push_if (flag first 2) PrinterCondition.paused
    ++ push_if (flag first 9 || flag first 10 || flag first 11) PrinterCondition.error
    ++ push_if (flag second 2) PrinterCondition.head_open
    ++ push_if (flag second 3) PrinterCondition.ribbon_out

unfoldable pub status_of_blocks : List (List String) → Option DeviceStatus
unfolding zpl_conditions from_conditions
status_of_blocks (first ∷ second ∷ rest) =
    if leb 12 (length first) && leb 4 (length second)
    then some (from_conditions (zpl_conditions first second))
    else none
status_of_blocks _ = none

unfoldable pub parse_zpl_host_status : String → Option DeviceStatus
unfolding blocks_of status_of_blocks
parse_zpl_host_status response = status_of_blocks (blocks_of response)

-- Bits 1 and 4 are set, 0 and 7 clear.
abbrev pub is_status_byte : ℕ → Bool
is_status_byte b = bit_and b 0x93 == 0x12

unfoldable pub escpos_conditions : ℕ → ℕ → ℕ → List PrinterCondition
escpos_conditions printer cause paper =
    push_if (is_set printer 0x08) PrinterCondition.offline
    ++ push_if (is_set cause 0x04) PrinterCondition.head_open
    ++ push_if (is_set cause 0x20 || is_set paper 0x60) PrinterCondition.paper_out
    ++ push_if (is_set cause 0x40) PrinterCondition.error
    ++ push_if (is_set paper 0x0C) PrinterCondition.paper_low

unfoldable pub parse_escpos_status : ℕ → ℕ → ℕ → Option DeviceStatus
unfolding escpos_conditions from_conditions
parse_escpos_status printer cause paper =
    if is_status_byte printer && is_status_byte cause && is_status_byte paper
    then some (from_conditions (escpos_conditions printer cause paper))
    else none
