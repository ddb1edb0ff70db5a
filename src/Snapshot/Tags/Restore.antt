-- ===== src/Snapshot/Tags/Restore.antt =====
-- internal/snapshot/snapshot.go: a snapshot as it is decoded from what it encodes.
use ticketbutler_proxy.Common.{
  none, ℕ, zero, suc, ◌≤◌, ◌≡◌, refl, sym, ◌∙◌, ap, List, [], ◌∷◌, length, arith, inl, inr,
  Option-cases,
}
use ticketbutler_proxy.Int.{ℤ}
use ticketbutler_proxy.Float.{Float, IsFloat}
use ticketbutler_proxy.Text.{Text, codes, text_functions}
use ticketbutler_proxy.Errors.{Bytes, Result, ok, err, ◌>>=◌, with_context, limit_reader}
use ticketbutler_proxy.Json.Value.{Json}
use ticketbutler_proxy.Json.Kind.{IsKind}
use ticketbutler_proxy.Json.Kind.Laws.{ok_inj, >>=-ok_inv, int_kind-IsKind, nil_slice_kind_same}
use ticketbutler_proxy.Json.Struct.{find_field}
use ticketbutler_proxy.Json.Struct.Laws.{struct_kind-IsKind, field-IsField}
use ticketbutler_proxy.Ticketbutler.Tags.Lines.{restore_orders}
use ticketbutler_proxy.Ticketbutler.Tags.Restore.{orders_response_kind-IsKind}
use ticketbutler_proxy.Aggregate.Tags.Restore.{
  restore_summary, summary_kind-IsKind, sponsor_kind-IsKind,
}
use ticketbutler_proxy.Snapshot.Snapshot.{Snapshot, Codec, max_decompressed, encode, decode}
use ticketbutler_proxy.Snapshot.Tags.{
  TimeFormat, IsTimeFormat, Wire, IsWire, printed, put_time, get_time, time_kind, snapshot_fields,
  no_snapshot, snapshot_kind, json_codec,
}

-- What a snapshot is after it has been stored: amounts to the cent, maps as they were decoded.
unfoldable pub restore_snapshot : {F : Type 0} → (F → F) → Snapshot F → Snapshot F
restore_snapshot cents s = record s {
  summary = restore_summary s.summary;
  orders = restore_orders cents s.orders;
}

limit_reader_whole : (n : ℕ) (body : Bytes) → length body ≤ n → limit_reader n body ≡ body
unfolding limit_reader
limit_reader_whole zero [] h = refl
limit_reader_whole zero (b ∷ body) h = absurd (omega arith)
limit_reader_whole (suc n) [] h = refl
limit_reader_whole (suc n) (b ∷ body) h = rw (limit_reader_whole n body (omega arith))

with_context_inv :
    {A : Type 0} (context : Text) (r : Result A) {a : A} → with_context context r ≡ ok a → r ≡ ok a
with_context_inv context (ok b) h = h
with_context_inv context (err e) h = cc

module _ {F : Type 0} (codec : Codec F) where
  pub encode_inv :
      (snap : Snapshot F) (bytes : Bytes)
      → encode codec snap ≡ ok bytes
      → (body : Bytes) × (codec.marshal snap ≡ ok body) × (codec.compress body ≡ ok bytes)
  unfolding encode
  encode_inv snap bytes h =
      let (body, marshalled, h₁) =
        >>=-ok_inv (with_context (codes "encoding snapshot") (codec.marshal snap)) _ h in
      (body, with_context_inv _ _ marshalled, with_context_inv _ _ h₁)

  decode_body :
      (bytes body : Bytes) (snap : Snapshot F)
      → codec.new_reader bytes ≡ ok body
      → limit_reader max_decompressed body ≡ body
      → codec.unmarshal body ≡ ok snap
      → decode codec bytes ≡ ok snap
  unfolding decode
  decode_body bytes body snap opened whole read = rw opened (rw whole (rw read))

printed-ok :
    (wire : Wire) (j : Json) (body : Bytes)
    → printed wire j ≡ ok body
    → (wire.refuses j ≡ none) × (wire.print j ≡ body)
unfolding printed
printed-ok wire j body h = ground (arith, h)

module _ {F : Type 0} ⦃float : Float F⦄ (time : TimeFormat) (wire : Wire) where
  marshal_put :
      (snap : Snapshot F) (j : Json) (body : Bytes)
      → (snapshot_kind {F = F} time).put snap ≡ ok j
      → (json_codec {F = F} time wire).marshal snap ≡ ok body
      → (wire.refuses j ≡ none) × (wire.print j ≡ body)
  marshal_put snap j body h k =
      printed-ok wire j body (sym (ap (λ (r : Result Json). r >>= printed wire) h) ∙ k)

  unmarshal_get :
      (body : Bytes) (j : Json) (snap : Snapshot F)
      → wire.parse body ≡ ok j
      → (snapshot_kind {F = F} time).get j ≡ ok snap
      → (json_codec {F = F} time wire).unmarshal body ≡ ok snap
  unmarshal_get body j snap h k =
      ap (λ (r : Result Json). r >>= (snapshot_kind {F = F} time).get) h ∙ k

module _ {time : TimeFormat} (law : IsTimeFormat time) where
  get_time-put_time : (t : ℤ) (j : Json) → put_time time t ≡ ok j → get_time time j ≡ ok t
  unfolding put_time get_time
  get_time-put_time t j h = elim (Option-cases (time.print_time t)) [
    | inl missing ↦ cc (rw missing at h)
    | inr (s, printed) ↦ rw (← ok_inj (rw printed at h)) (rw (law.parse-print_time t s printed))
  ]

  time_kind-IsKind : IsKind (time_kind time) (λ t. t)
  time_kind-IsKind = record { get-put = get_time-put_time }

module _ {F : Type 0} ⦃float : Float F⦄ {cents : F → F} (laws : IsFloat float cents)
    {time : TimeFormat} (time_law : IsTimeFormat time) where
  snapshot_copies : List (Snapshot F → Snapshot F → Snapshot F)
  snapshot_copies =
      (λ (x y : Snapshot F). record y { fetched_at = x.fetched_at })
      ∷ (λ (x y : Snapshot F). record y { source_duration_ms = x.source_duration_ms })
      ∷ (λ (x y : Snapshot F). record y { summary = restore_summary x.summary })
      ∷ (λ (x y : Snapshot F). record y { sponsors = x.sponsors })
      ∷ (λ (x y : Snapshot F). record y { orders = restore_orders cents x.orders })
      ∷ []

  pub snapshot_kind-IsKind : IsKind (snapshot_kind {F = F} time) (restore_snapshot cents)
  unfolding restore_snapshot snapshot_fields snapshot_copies find_field text_functions
  snapshot_kind-IsKind =
      struct_kind-IsKind (snapshot_fields time) (no_snapshot time) snapshot_copies _
        (
          field-IsField (time_kind-IsKind time_law) _ _ _,
          (
            field-IsField int_kind-IsKind _ _ _,
            (
              field-IsField (summary_kind-IsKind laws) _ _ _,
              (
                field-IsField (nil_slice_kind_same sponsor_kind-IsKind) _ _ _,
                (field-IsField (orders_response_kind-IsKind laws) _ _ _, tt),
              ),
            ),
          ),
        )
        (refl, (refl, (refl, (refl, (refl, tt))))) (λ x. refl)

  -- Where gzip and the texts of JSON, of instants and of numbers are as documented: a snapshot that is
  -- encoded, to a JSON text of at most 256 MiB, is decoded from its bytes with all amounts of its
  -- orders to the cent, and otherwise as it was, but for the order in which a map lists its entries.
  pub decode-encode :
      {wire : Wire}
      → IsWire wire
      → (snap : Snapshot F) (j : Json) (bytes : Bytes)
      → (snapshot_kind {F = F} time).put snap ≡ ok j
      → length (wire.print j) ≤ max_decompressed
      → encode (json_codec time wire) snap ≡ ok bytes
      → decode (json_codec time wire) bytes ≡ ok (restore_snapshot cents snap)
  decode-encode {wire} wire_law snap j bytes put_snap fits h =
      let (body, marshalled, compressed) = encode_inv (json_codec time wire) snap bytes h in
      let (accepted, same) = marshal_put time wire snap j body put_snap marshalled in
      let decoded = snapshot_kind-IsKind.get-put snap j put_snap in
      decode_body (json_codec time wire) bytes body (restore_snapshot cents snap)
        (wire_law.new_reader-compress body bytes compressed)
        (limit_reader_whole max_decompressed body (rw (← same) fits))
        (unmarshal_get time wire body j _
          (ap wire.parse (sym same) ∙ wire_law.parse-print j accepted) decoded)
