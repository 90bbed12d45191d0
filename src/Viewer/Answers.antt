-- ===== src/Viewer/Answers.antt =====
-- The answers of the viewer: who is served, and with which status.
use offline_media_catalog.Base.{
  ◌==◌, ℕ, ◌≡◌, ◌≢◌, ◌↔◌, refl, true, false, List, [], ◌∷◌, some, length, Bool-cases, arith, inl,
  inr,
}
use offline_media_catalog.Http.{HttpRequest, host_allowed}
use offline_media_catalog.Http.Hosts.{IsLoopback, host_allowed_iff}
use offline_media_catalog.Viewer.{Backend}
use offline_media_catalog.Viewer.Client.{Response, handle, handle_client}

nonempty : (s : List ℕ) → (length s == 0) ≡ false → s ≢ []
nonempty [] h e = absurd (ground (arith, h))
nonempty (c ∷ s) h e = absurd (ground (arith, e))

empty : (s : List ℕ) → (length s == 0) ≡ true → s ≡ []
empty [] h = refl
empty (c ∷ s) h = absurd (ground (arith, h))

-- A request is answered with status 200 exactly if its Host value names the loopback interface and
-- the page that it asks for is not empty, and the answer is then that page.
pub handle_client_status :
    (env : Backend) (req : HttpRequest) (r : Response)
    → handle_client env (some req) ≡ some r
    → ((r.status ≡ 200) ↔ (IsLoopback req.host × (handle env req ≢ [])))
      × (r.status ≡ 200 → r.body ≡ handle env req)
unfolding handle_client
handle_client_status env req r e =
    let page = handle env req in
    let to_host = (host_allowed_iff req.host).0 in
    let of_host = (host_allowed_iff req.host).1 in
    elim (Bool-cases (host_allowed req.host)) [
      | inl a ↦ elim (Bool-cases (length page == 0)) [
        | inl z ↦
            let s : r.status ≡ 404 = ground (arith, a, z, e) in
            (
              (λ k. absurd (omega (arith, s, k)), λ k. absurd (k.1 (empty page z))),
              λ k. absurd (omega (arith, s, k)),
            )
        | inr z ↦
            let s : r.status ≡ 200 = ground (arith, a, z, e) in
            let b : r.body ≡ page = ground (arith, a, z, e) in
            ((λ k. (to_host a, nonempty page z), λ k. s), λ k. b)
      ]
      | inr a ↦
          let s : r.status ≡ 400 = ground (arith, a, e) in
          (
            (λ k. absurd (omega (arith, s, k)), λ k. absurd (ground (arith, a, of_host k.0))),
            λ k. absurd (omega (arith, s, k)),
          )
    ]
