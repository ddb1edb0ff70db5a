-- ===== src/Snapshot/Tags/Tests.antt =====
-- A snapshot of a small payload, stored and read back, with the text form of Json/Postfix.antt and instants
-- as decimal numbers.
use ticketbutler_proxy.Common.{
  ℕ, ◌≡◌, refl, true, none, some, length, leb, arith, if◌then◌else◌, inl, inr, Bool-cases,
}
use ticketbutler_proxy.Int.{pos}
use ticketbutler_proxy.Text.{text_functions}
use ticketbutler_proxy.Text.Ascii.{ascii_case}
use ticketbutler_proxy.Errors.{Bytes, Result, ok, err}
use ticketbutler_proxy.Errors.{decimal, decimal_from}
use ticketbutler_proxy.Float.Milli.{milli, cents, scaled, milli-IsFloat}
use ticketbutler_proxy.Json.Value.{Json, null}
use ticketbutler_proxy.Json.Number.{print_int, in_int64, atoi-print_int}
use ticketbutler_proxy.Json.Postfix.{print, parse, parse-print}
use ticketbutler_proxy.Config.Values.{atoi}
use ticketbutler_proxy.Int.{quot}
use ticketbutler_proxy.Dict.{lookup, insert}
use ticketbutler_proxy.Ticketbutler.Types.{
  answer_for, first_choice, marshal_amount, unmarshal_amount,
}
use ticketbutler_proxy.Aggregate.Sizes.{add_size, normalize_size}
use ticketbutler_proxy.Aggregate.Summary.{summarise}
use ticketbutler_proxy.Aggregate.Sponsors.{
  sponsors, sort, less, insert_sorted, visit_orders, visit_tickets, visit, is_wanted, company_key,
  is_seen, sponsor_of,
}
use ticketbutler_proxy.Json.Kind.{put_int, put_nil_slice, put_pointer, put_items, put_slice}
use ticketbutler_proxy.Json.Struct.{put_option, put_fields, put_struct}
use ticketbutler_proxy.Json.Map.{insert_by_key, sort_by_key, put_entries, put_map}
use ticketbutler_proxy.Ticketbutler.Tags.{
  drop_last, string_of_token, put_amount, put_float, address_fields, choice_fields, answer_fields,
  answer_collection_fields, order_line_fields, ticket_fields, order_fields, orders_response_fields,
}
use ticketbutler_proxy.Aggregate.Tags.{
  size_counts_fields, counts_fields, ticket_group_fields, summary_fields, sponsor_fields,
}
use ticketbutler_proxy.Snapshot.Tags.{put_time, snapshot_fields}
use ticketbutler_proxy.Aggregate.Tests.{payload, options}
use ticketbutler_proxy.Snapshot.Snapshot.{Snapshot, max_decompressed, build, encode, decode}
use ticketbutler_proxy.Snapshot.Tags.{
  TimeFormat, IsTimeFormat, Wire, IsWire, snapshot_kind, printed, json_codec,
}
use ticketbutler_proxy.Snapshot.Tags.Restore.{restore_snapshot, decode-encode}

abbrev pub seconds : TimeFormat
seconds = record {
  zero_time = pos 0;
  print_time = λ t. if in_int64 t then some (print_int t) else none;
  parse_time = atoi;
}

pub seconds-IsTimeFormat : IsTimeFormat seconds
seconds-IsTimeFormat = record {
  parse-print_time = λ t s h. elim (Bool-cases (in_int64 t)) [
    | inl small ↦
        let e : print_int t ≡ s = ground (arith, small, h) in rw (← e) (atoi-print_int t small)
    | inr large ↦ absurd (ground (arith, large, h))
  ];
}

abbrev pub plain : Wire
plain = record {
  refuses = λ j. none;
  print = print;
  parse = parse;
  compress = λ body. ok body;
  new_reader = λ bytes. ok bytes;
}

pub plain-IsWire : IsWire plain
plain-IsWire = record {
  parse-print = λ j h. parse-print j;
  new_reader-compress = λ body bytes h. cc;
}

abbrev pub value_of : Result Json → Json
value_of (ok j) = j
value_of (err e) = null

abbrev snapshot : Snapshot ℕ
snapshot = build (record { orders = payload; duration = pos 2000000 }) (pos 5) options

abbrev json : Json
json = value_of ((snapshot_kind seconds).put snapshot)

unfoldable pub encoding : Unit {0}
unfolding text_functions print print_int in_int64 build quot lookup insert answer_for first_choice
    marshal_amount unmarshal_amount add_size normalize_size summarise sponsors sort less
    insert_sorted visit_orders visit_tickets visit is_wanted company_key is_seen sponsor_of scaled
    decimal decimal_from put_int put_nil_slice put_pointer put_items put_slice put_option put_fields
    put_struct insert_by_key sort_by_key put_entries put_map drop_last string_of_token put_amount
    put_float address_fields choice_fields answer_fields answer_collection_fields order_line_fields
    ticket_fields order_fields orders_response_fields size_counts_fields counts_fields
    ticket_group_fields summary_fields sponsor_fields put_time snapshot_fields printed
encoding = tt

put_json : (snapshot_kind seconds).put snapshot ≡ ok json
unfolding encoding
put_json = refl

fits : leb (length (print json)) max_decompressed ≡ true
unfolding encoding
fits = refl

abbrev bytes : Bytes
bytes = print json

encoded : encode (json_codec seconds plain) snapshot ≡ ok bytes
unfolding encode printed
encoded = rw put_json

decode-encode_example :
    decode (json_codec seconds plain) bytes ≡ ok (restore_snapshot cents snapshot)
decode-encode_example =
    decode-encode milli-IsFloat seconds-IsTimeFormat plain-IsWire snapshot json bytes put_json
      (ground (arith, fits)) encoded
