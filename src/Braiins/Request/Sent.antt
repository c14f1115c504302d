-- ===== src/Braiins/Request/Sent.antt =====
-- When an attempt brings its value, and how else it ends.
use braiins_pool_exporter.Base.{
  ◌+◌, ◌≤◌, ◌<◌, ◌≡◌, refl, ◌⊎◌, inl, inr, true, false, Option, none, some, arith, ltb, leb, length,
  take, length-take, Bool-cases, Option-cases,
}
use braiins_pool_exporter.Base.Result.{Result, ok, err}
use braiins_pool_exporter.Text.{Text}
use braiins_pool_exporter.Braiins.Errors.{ClientError, status, decode, too_large}
use braiins_pool_exporter.Braiins.Request.Once.{
  SendError, Response, max_response_bytes, failed, transport_error, read_body, receive, sent,
}

-- The body was read to its end and is not too long.
abbrev pub IsRead : Response → Type 0
IsRead r = (length r.body ≤ max_response_bytes) × (r.failure ≡ none)

-- The transport fails before the response or within the first bytes of its body.
abbrev pub IsBroken : Result SendError Response → SendError → Type 0
IsBroken o e =
    (o ≡ err e)
    ⊎ ((r : Response) × (o ≡ ok r) × (length r.body ≤ max_response_bytes) × (r.failure ≡ some e))

module _ (fold : Text → Text) where
  -- The first bytes of the body are a failure, or the whole body was read, or it is too long.
  read_body-cases :
      (r : Response)
      → ((e : SendError) × (length r.body ≤ max_response_bytes)
          × (r.failure ≡ some e)
          × (read_body fold r ≡ err e))
        ⊎ (IsRead r × (read_body fold r ≡ ok r.body))
        ⊎ ((body : Text) × (max_response_bytes < length body)
            × (max_response_bytes < length r.body)
            × (read_body fold r ≡ ok body))
  unfolding read_body
  read_body-cases r = elim (Bool-cases (leb (max_response_bytes + 1) (length r.body))) [
    | inl long ↦
        let more : max_response_bytes + 1 ≤ length r.body = ground (arith, long) in
        inr (
          inr (
            take (max_response_bytes + 1) r.body,
            omega (arith, length-take (max_response_bytes + 1) r.body more),
            more,
            rw long refl,
          ))
    | inr short ↦
        let few : length r.body ≤ max_response_bytes = ground (arith, short) in
        elim (Option-cases r.failure) [
          | inl whole ↦ inr (inl ((few, whole), rw (short, whole) refl))
          | inr (e, broken) ↦ inl (e, few, broken, rw (short, broken) refl)
        ]
  ]

  module _ {A : Type 0} (decode_body : Text → Option A) where
    abbrev pub IsGood : Response → Type 0
    IsGood r = (200 ≤ r.status_code) × (r.status_code ≤ 299)

    abbrev pub refused : Response → ClientError
    refused r = status (record {
      status_code = r.status_code;
      content_type = r.content_type;
      retry_after = r.retry_after;
    })

    -- A body that is not too long is looked at only behind a good status.
    receive-cases :
        (r : Response) (body : Text)
        → length body ≤ max_response_bytes
        → let out = receive fold decode_body r (ok body) in
          (((r.status_code < 200) ⊎ (299 < r.status_code)) × (out ≡ some (err (refused r))))
          ⊎ (IsGood r × (decode_body body ≡ none) × (out ≡ some (err decode)))
          ⊎ ((a : A) × IsGood r × (decode_body body ≡ some a) × (out ≡ some (ok a)))
    unfolding receive
    receive-cases r body few =
        let short : ltb max_response_bytes (length body) ≡ false = ground (arith, few) in
        elim (Bool-cases (ltb r.status_code 200)) [
          | inl low ↦ inl (inl (ground (arith, low)), rw (short, low) refl)
          | inr enough ↦ elim (Bool-cases (ltb 299 r.status_code)) [
            | inl high ↦ inl (inr (ground (arith, high)), rw (short, enough, high) refl)
            | inr good ↦
                let is_good : IsGood r = (ground (arith, enough), ground (arith, good)) in
                elim (Option-cases (decode_body body)) [
                  | inl bad ↦ inr (inl (is_good, bad, rw (short, enough, good, bad) refl))
                  | inr (a, fine) ↦
                      inr (inr (a, is_good, fine, rw (short, enough, good, fine) refl))
                ]
          ]
        ]

    -- The five ways of what was sent.
    abbrev pub Explained : Result SendError Response → Option (Result ClientError A) → Type 0
    Explained o out =
        ((e : SendError) × IsBroken o e × (out ≡ failed fold (transport_error fold e)))
        ⊎ ((r : Response) × (o ≡ ok r)
            × (max_response_bytes < length r.body)
            × (out ≡ some (err too_large)))
        ⊎ ((r : Response) × (o ≡ ok r)
            × IsRead r
            × ((r.status_code < 200) ⊎ (299 < r.status_code))
            × (out ≡ some (err (refused r))))
        ⊎ ((r : Response) × (o ≡ ok r)
            × IsRead r
            × IsGood r
            × (decode_body r.body ≡ none)
            × (out ≡ some (err decode)))
        ⊎ ((r : Response) × (a : A) × (o ≡ ok r)
            × IsRead r
            × IsGood r
            × (decode_body r.body ≡ some a)
            × (out ≡ some (ok a)))

    receive_long :
        (r : Response) (body : Text)
        → max_response_bytes < length body
        → receive fold decode_body r (ok body) ≡ some (err too_large)
    unfolding receive
    receive_long r body long =
        let more : ltb max_response_bytes (length body) ≡ true = ground (arith, long) in
        rw more refl

    -- What is sent has one of five outcomes: the redacted error of a transport that breaks before the
    -- response or in its first 1048576 bytes, a body that is longer, a status outside 200 to 299, a
    -- body that is not decoded, or the decoded value; the status is looked at behind the whole body.
    pub sent-Explained : (o : Result SendError Response) → Explained o (sent fold decode_body o)
    unfolding sent receive
    sent-Explained (err e) = inl (e, inl refl, refl)
    sent-Explained (ok r) = elim (read_body-cases r) [
      | inl (e, few, broken, read) ↦ inl (e, inr (r, refl, few, broken), rw (sent, read) refl)
      | inr (inr (body, long, longer, read)) ↦
          inr (inl (r, refl, longer, rw (sent, read, receive_long r body long) refl))
      | inr (inl ((few, whole), read)) ↦ elim (receive-cases r r.body few) [
        | inl (outside, out) ↦
            inr (inr (inl (r, refl, (few, whole), outside, rw (sent, read, out) refl)))
        | inr (inl (good, bad, out)) ↦
            inr (inr (inr (inl (r, refl, (few, whole), good, bad, rw (sent, read, out) refl))))
        | inr (inr (a, good, fine, out)) ↦
            inr (inr (inr (inr (r, a, refl, (few, whole), good, fine, rw (sent, read, out) refl))))
      ]
    ]
