-- ===== src/Server/Handlers/Origins.antt =====
-- pkg/server/handlers.go: the origins that `corsMiddleware` lets in.
use tinyobs.Base.{
  ◌≡◌, refl, ◌⊎◌, inl, inr, ◌∙◌, ◌++◌, Bool, true, false, [], ◌∷◌, none, some, Bytes, Dict, codes,
  str_eq, str_eq_iff, lookup, insert, any, Bool-cases, if◌then◌else◌, arith,
}
use tinyobs.Server.Handlers.{
  Response, allow_origin, allow_credentials, allowed_origins, cors_headers, cors_middleware,
}

-- The origins of the machine itself.
abbrev pub IsLocal : Bytes → Bytes → Type 0
IsLocal port o =
    (o ≡ codes "http://localhost:" ++ port)
    ⊎ (o ≡ codes "http://127.0.0.1:" ++ port)
    ⊎ (o ≡ codes "http://localhost:3000")
    ⊎ (o ≡ codes "http://127.0.0.1:3000")

one_of :
    (o a b c d : Bytes)
    → any (λ x. str_eq o x) (a ∷ b ∷ c ∷ d ∷ []) ≡ true
    → (o ≡ a) ⊎ (o ≡ b) ⊎ (o ≡ c) ⊎ (o ≡ d)
one_of o a b c d h = ground (arith, str_eq_iff o a, str_eq_iff o b, str_eq_iff o c, str_eq_iff o d)

allowed-IsLocal :
    (port origin : Bytes)
    → any (λ o. str_eq origin o) (allowed_origins port) ≡ true
    → IsLocal port origin
unfolding allowed_origins
allowed-IsLocal port origin h = one_of origin _ _ _ _ h

-- A handler behind the middleware that does not set these headers itself.
abbrev pub KeepsCors : (Dict Bytes → Response) → Type 0
KeepsCors next =
    (headers : Dict Bytes)
    → (lookup allow_origin (next headers).headers ≡ lookup allow_origin headers)
      × (lookup allow_credentials (next headers).headers ≡ lookup allow_credentials headers)

origin_header : (o : Bytes) → lookup allow_origin (cors_headers o) ≡ some o
unfolding cors_headers insert lookup str_eq
origin_header o = refl

-- The headers of the answer, with or without the handler.
kept :
    (k : Bytes) (options : Bool) (headers : Dict Bytes) (next : Dict Bytes → Response)
    → lookup k (next headers).headers ≡ lookup k headers
    → lookup k
        (if options then record { status = 200; headers = headers } else next headers).headers
      ≡ lookup k headers
kept k true headers next h = refl
kept k false headers next h = h

-- Only a local origin is let in: if a response names an origin that may read it, or allows
-- credentials, then the request came from one of the four origins of this machine, and it is this
-- origin that is named; whatever the method, and whatever the handler, if it does not set these
-- headers itself.
pub cors_middleware-IsLocal :
    (port origin method : Bytes) (next : Dict Bytes → Response)
    → KeepsCors next
    → (let headers = (cors_middleware port origin method next).headers in
        ((lookup allow_origin headers ≡ none) × (lookup allow_credentials headers ≡ none))
        ⊎ (lookup allow_origin headers ≡ some origin) × IsLocal port origin)
unfolding cors_middleware lookup
cors_middleware-IsLocal port origin method next keeps =
    elim (Bool-cases (any (λ o. str_eq origin o) (allowed_origins port))) [
      | inl allowed ↦ rw allowed (
          inr (
            kept allow_origin (str_eq method (codes "OPTIONS")) (cors_headers origin) next
                  (keeps (cors_headers origin)).0
                ∙ origin_header origin,
            allowed-IsLocal port origin allowed,
          ))
      | inr other ↦ rw other (
          inl (
            kept allow_origin (str_eq method (codes "OPTIONS")) [] next (keeps []).0,
            kept allow_credentials (str_eq method (codes "OPTIONS")) [] next (keeps []).1,
          ))
    ]
