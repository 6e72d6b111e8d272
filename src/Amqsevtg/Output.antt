-- ===== src/Amqsevtg/Output.antt =====
-- amqsevtg/callback.go and amqsevtg.go: the events on the standard output, in lines or as an array.
-- The JSON text of an event is the JSON package's.
use mq_metric_samples.Prelude.{
  Bytes, codes, Bool, true, false, not, ◌&&◌, List, [], ◌∷◌, ◌++◌, append_assoc, if◌then◌else◌, ◌≡◌,
  refl, sym, ◌∙◌, ap, append-nil,
}

-- `separator` and `firstEvent`, and what has been printed.
pub record Printer : Type 0 where
  pub separator : Bytes
  pub first_event : Bool
  pub printed : Bytes

abbrev pub start_printer : Printer
start_printer = record { separator = []; first_event = true; printed = [] }

open_array : Bool → Printer → Printer
open_array false p = p
open_array true p =
    if p.first_event
    then record p { printed = p.printed ++ codes "[\n"; first_event = false }
    else record p { separator = codes "," }

unfoldable pub print_event : Bool → Bytes → Printer → Printer
unfolding open_array
print_event json_array d p =
    let q = open_array json_array p in
    record q { printed = q.printed ++ q.separator ++ d ++ codes "\n" }

unfoldable pub print_events : Bool → List Bytes → Printer → Printer
unfolding print_event
print_events json_array [] p = p
print_events json_array (d ∷ ds) p = print_events json_array ds (print_event json_array d p)

-- The end of the program closes the array, if there is one.
unfoldable pub close_array : Bool → Printer → Printer
close_array json_array p =
    if json_array && not p.first_event then record p { printed = p.printed ++ codes "]\n" } else p

-- The elements of a JSON array behind the first one.
abbrev pub more_elements : List Bytes → Bytes
more_elements [] = []
more_elements (d ∷ ds) = (codes "," ++ d ++ codes "\n") ++ more_elements ds

-- A JSON array of the texts, one in a line; nothing where there is none.
abbrev pub array_text : List Bytes → Bytes
array_text [] = []
array_text (d ∷ ds) = codes "[\n" ++ d ++ codes "\n" ++ more_elements ds ++ codes "]\n"

-- Between two events of an array.
print_more :
    (ds : List Bytes) (p : Printer)
    → p.first_event ≡ false
    → ((print_events true ds p).printed ≡ p.printed ++ more_elements ds)
      × ((print_events true ds p).first_event ≡ false)
unfolding print_events print_event open_array
print_more [] p h = (sym (append-nil p.printed), h)
print_more (d ∷ ds) p h =
    let q = print_event true d p in
    let flag : q.first_event ≡ false = rw h refl in
    let text : q.printed ≡ p.printed ++ (codes "," ++ d ++ codes "\n") = rw h (simp append_assoc) in
    let (rest, on) = print_more ds q flag in
    (
      rest
          ∙ ap (λ (s : Bytes). s ++ more_elements ds) text
          ∙ append_assoc p.printed (codes "," ++ d ++ codes "\n") (more_elements ds),
      on,
    )

first_flag : (d : Bytes) → (print_event true d start_printer).first_event ≡ false
unfolding print_event open_array
first_flag d = refl

first_text :
    (d : Bytes) → (print_event true d start_printer).printed ≡ codes "[\n" ++ d ++ codes "\n"
unfolding print_event open_array
first_text d = refl

array_end :
    (d : Bytes) (ds : List Bytes) (q : Printer)
    → q.printed ≡ codes "[\n" ++ d ++ codes "\n"
    → (q.printed ++ more_elements ds) ++ codes "]\n" ≡ array_text (d ∷ ds)
array_end d ds q e = rw e (simp append_assoc)

close_open :
    (p : Printer) → p.first_event ≡ false → (close_array true p).printed ≡ p.printed ++ codes "]\n"
unfolding close_array
close_open p h = rw h refl

nothing_printed : (close_array true start_printer).printed ≡ []
unfolding close_array
nothing_printed = refl

-- What is printed for events in the array style, up to the end of the program, is one array of them,
-- and nothing at all where no event came.
pub print_events-array :
    (ds : List Bytes)
    → (close_array true (print_events true ds start_printer)).printed ≡ array_text ds
unfolding print_events
print_events-array [] = nothing_printed
print_events-array (d ∷ ds) =
    let q = print_event true d start_printer in
    let (text, off) = print_more ds q (first_flag d) in
    close_open (print_events true ds q) off
    ∙ ap (λ (s : Bytes). s ++ codes "]\n") text
    ∙ array_end d ds q (first_text d)
