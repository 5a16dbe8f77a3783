-- ===== src/Lib.antt =====
-- identity-ghost: the OAuth 2.0 and OpenID Connect core of the server under srv/src.
--
-- A client sends the user's browser to GET /authorize. The request is validated against the client's
-- row, the session of the signed cookie is looked up, the user's consent is checked, and a code is
-- issued that is bound to the request. The code is redeemed once for tokens; a refresh token is
-- rotated at each use, within a family that a replay, a logout or a revocation kills.
--
-- Which file models which part, under srv/src:
--   Prelude, Prelude/*: lists, strings as lists of UTF-16 units, JavaScript's string operations.
--   Errors: exceptions/oauth-exception.ts and the framework's exceptions, as values of a result.
--   Scope: casl/scope-normalizer.ts and casl/scope-resolver.service.ts.
--   Session: auth/login-session.service.ts, over the rows of entity/login-session.entity.ts.
--   Consent: auth/consent.service.ts, over entity/user-consent.entity.ts.
--   AuthCode: auth/auth-code.service.ts, over entity/auth_code.entity.ts.
--   RefreshToken, RefreshToken/Row: auth/refresh-token.service.ts, over
--     entity/refresh-token.entity.ts.
--   Revocation: auth/token-revocation.service.ts, over the session and the token table.
--   Client, Client/Resource: entity/client.entity.ts, findByClientIdOrAlias of
--     services/client.service.ts, auth/first-party-resolver.ts, auth/resource-indicator.validator.ts.
--   IdTokenHint: auth/id-token-hint.validator.ts.
--   Prompt: auth/prompt.service.ts.
--   Authorize, Authorize/Request: auth/authorize.service.ts, and AuthorizeSchema of
--     validation/validation.schema.ts.
--   Endpoint: GET /authorize of controllers/oauth-token.controller.ts.
--   CodeGrant: handleCodeGrant of controllers/oauth-token.controller.ts up to its call of issueToken,
--     and generateCodeChallenge of util/crypt.util.ts.
--   TokenEndpoint: POST /token of controllers/oauth-token.controller.ts, with its four grants, and
--     validate of auth/auth.service.ts.
--   ClientAuth: validateClientSecret of services/client.service.ts, validateClientCredentials and
--     validatePublicClient of auth/auth.service.ts, and util/http.util.ts.
--   Directory: the rows of users, tenants, members, apps, subscriptions and roles (entity), and the
--     queries of services/tenant.service.ts, role.service.ts, subscription.service.ts and
--     users.service.ts on them that tokens depend on.
--   Policies: casl/policy-resolution.service.ts.
--   KeyManagement: services/key-management.service.ts, over entity/tenant-key.entity.ts.
--   KeyManagement/Jwks: services/jwks.service.ts.
--   Tokens: the payloads and signing of access, technical and id tokens (auth/auth.service.ts,
--     core/technical-token.service.ts, auth/id-token.service.ts, auth/claims-resolver.service.ts).
--   TokenIssuance, TokenIssuance/Steps: auth/token-issuance.service.ts.
--   AccessToken: validateAccessToken of auth/auth.service.ts.
--   Introspection: auth/token-introspection.service.ts and controllers/introspection.controller.ts.
--   TenantAmbiguity: auth/tenant-ambiguity.service.ts.
--   AppSubscription, AppSubscription/Unsubscribe: subscribeApp and unsubscribe of
--     services/app-subscription.service.ts.
--   TenantBits: services/tenant-bits.service.ts, over entity/tenant-bits.entity.ts.
-- The children of these files hold their proofs, and the Tests modules concrete runs.
--
-- State and operations: a table is the list of its rows, oldest first, and an operation is a
-- function from the table, its arguments and the readings of the clock to a result and the next
-- table. Operations keep the names of the methods, in snake case. An interleaving is explicit: the
-- steps of a rotation that go to the database are definitions of their own, which a proof may run on
-- a table that others have changed in between. Times are natural numbers of milliseconds; where the
-- source subtracts, the model compares sums. Where the source wants seconds, milliseconds are divided by
-- 1000. Only three functions run on fuel: subscribe_app and unsubscribe, one unit for each level of
-- their recursion, where two suffice, as a further app is loaded without its owner and the recursion ends
-- there; and the digits of a number, which are no more than the number and one.
--
-- Parameters: the hash of tokens, random values and ids, the clock, parsed settings, the URL parser,
-- the schema library, the hashes of PKCE, scrypt and argon2, base64, the signing, decoding and
-- verification of JWTs, the generation of key pairs, the answers of the endpoints of apps, and whether
-- the database library answers an UPDATE on PostgreSQL with the rows or with the rows and their count.
--
-- Not modelled: POST /exchange and the login handlers, validateAuthCode (which nothing calls), the
-- administration endpoints and the operations of their services that change rows, the JSON of published keys, the
-- CASL rules (a library evaluates them), guards, cookies and CSRF values, logging, mail, migrations, the user interface.
pub mod Prelude
pub mod Errors
pub mod Scope
pub mod RefreshToken
pub mod AuthCode
pub mod Session
pub mod Consent
pub mod Revocation
pub mod Client
pub mod IdTokenHint
pub mod Prompt
pub mod Authorize
pub mod Endpoint
pub mod Directory
pub mod KeyManagement
pub mod TenantAmbiguity
pub mod AppSubscription
pub mod TokenEndpoint
pub mod Introspection
pub mod AccessToken
pub mod ClientAuth
pub mod TokenIssuance
pub mod Tokens
pub mod Policies
pub mod TenantBits
pub mod CodeGrant
