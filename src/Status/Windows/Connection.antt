-- ===== src/Status/Windows/Connection.antt =====
-- How a printer is attached, and what language it is likely to speak: `classify_connection` and
-- `guess_language` of providers/windows/src/status.rs.
use kiln_print.Prelude.{
  ℕ, String, Bool, not, ◌&&◌, ◌||◌, Option, none, some, List, [], ◌∷◌, any, all, length, leb, ◌==◌,
  str_eq, is_some, if◌then◌else◌, append, to_ascii_uppercase, split, split_where, contains_text,
  starts_with, parse_uint,
}
use kiln_print.Printer.{ConnectionType}
use kiln_print.Engine.Submit.JobNames.{trim_start, trim_end}
use kiln_print.Status.Flags.{is_set}

abbrev virtual_ports : List String
virtual_ports = "PORTPROMPT:" ∷ "NUL:" ∷ "FILE:" ∷ "XPSPORT:" ∷ "SHRFAX:" ∷ []

abbrev virtual_drivers : List String
virtual_drivers = "PRINT TO PDF" ∷ "XPS DOCUMENT WRITER" ∷ "ONENOTE" ∷ "FAX" ∷ []

abbrev dot : ℕ
dot = 46

abbrev attribute_network : ℕ
attribute_network = 0x10

abbrev is_digit_or_dot : ℕ → Bool
is_digit_or_dot c = (leb 48 c && leb c 57) || (c == dot)

unfoldable pub is_address : String → Bool
unfolding split parse_uint
is_address part =
    let octets = split dot part in
    (length octets == 4) && all (λ o. not (str_eq o "") && is_some (parse_uint 255 o)) octets

unfoldable pub looks_like_ip : String → Bool
unfolding split_where is_address
looks_like_ip port = any is_address (split_where (λ c. not (is_digit_or_dot c)) port)

unfoldable pub classify_connection : String → String → String → ℕ → ConnectionType
unfolding trim_start trim_end to_ascii_uppercase contains_text starts_with looks_like_ip
classify_connection name port driver attributes =
    let port_upper = to_ascii_uppercase (trim_end (trim_start port)) in
    let driver_upper = to_ascii_uppercase driver in
    if any (λ p. str_eq p port_upper) virtual_ports
      || any (λ d. contains_text d driver_upper) virtual_drivers
    then ConnectionType.virtual
    else if starts_with "USB" port_upper || starts_with "DOT4" port_upper
    then ConnectionType.usb
    else if starts_with "COM" port_upper
    then ConnectionType.serial
    else if starts_with "LPT" port_upper
    then ConnectionType.local
    else if is_set attributes attribute_network
        || starts_with "\\\\" name
        || starts_with "IP_" port_upper
        || starts_with "WSD" port_upper
        || starts_with "HTTP" port_upper
        || looks_like_ip port_upper
    then ConnectionType.network
    else ConnectionType.local

unfoldable pub guess_language : String → String → Option String
unfolding to_ascii_uppercase contains_text starts_with append
guess_language name driver =
    let said = to_ascii_uppercase (append name (append " " driver)) in
    let has : String → Bool = λ needle. contains_text needle said in
    if has "EPL"
    then some "EPL"
    else if has "ZPL" || has "ZDESIGNER" || has "ZEBRA"
    then some "ZPL"
    else if has "CPCL"
    then some "CPCL"
    else if has "TSPL" || starts_with "TSC " said || has " TSC "
    then some "TSPL"
    else if has "ESC/POS"
        || has "ESCPOS"
        || has "EPSON TM-"
        || has " TM-T"
        || has "POS-58"
        || has "POS-80"
        || has "RECEIPT"
    then some "ESC/POS"
    else if has "ESC/P" || has "EPSON LQ" || has "EPSON LX" || has "EPSON FX" || has "EPSON DFX"
    then some "ESC/P"
    else none
