-- ===== src/Lib.antt =====
-- EVAggregator: models of the logic of the backend (backend/src/evagg), with the theorems that make it
-- correct. The backend aggregates charging stations: chargers talk OCPP to a gateway, drivers start and
-- pay for sessions, fleets organise drivers in teams, and roaming partners use the chargers over OCPI.
--
-- The parts, and the files that model them (the paths are those of the repository):
-- - Gateway (backend/src/evagg/gateway): RefreshTokens is refresh_store.py, whose `rotate` revokes a
--   family on a replay; RateLimit is the fixed-window limiter of rate_limit.py; AccessTokens is
--   jwt_tokens.py, pkce.py and identity/driver_session.py; App is app.py, the codes, the token endpoint
--   and the SSO callback; Tenancy is middleware.py, trust.py and core/tenancy.py.
-- - Identity (backend/src/evagg/identity): Accounts is driver_auth.py and driver_auth_router.py, over Text
--   (what they do with strings) and Credentials (ocpp_gateway/credentials.py).
-- - Carbon (backend/src/evagg/carbon): Provider is the client of provider.py with its retries; Service is
--   service.py, cache.py and zone_map.py.
-- - Fleet (backend/src/evagg/fleet): Invites is team_invites.py, team_membership.py and team_join.py;
--   Usage is rollup.py and cost_report.py; Visibility is charger_visibility.py.
-- - Billing (backend/src/evagg/billing): Wallet is wallet.py; Sessions is session_billing.py and
--   payment_methods.py; Promotions, Pricing, Versions and Invoices are promotions.py,
--   pricing_resolution.py, tariff_versioning.py and invoicing.py; Tariffs is tariffs.py,
--   tariff_calculator.py and tariff_validation.py; Payouts is payouts.py;
--   TariffRoutes is tariff_router.py, and WalletRoutes is wallet_router.py and
--   payment_method_router.py.
-- - Ocpp (backend/src/evagg/ocpp_gateway): Presence is presence.py and connection_manager.py; Handlers is
--   message_handlers.py, over Transactions (transactions.py), Registry (registration.py, connectors.py),
--   Meters (meter_values.py, live_meter_readings.py), Authorization (authorize.py and ocpi/tokens.py) and
--   Events (events.py); Commands is commands.py; Bus is event_bus.py;
--   Calls and Socket are ws_app.py, the calls to a charger and the loop over its frames; Transport is
--   nats_command_transport.py; Publisher is bus_event_publisher.py; Admin is command_router.py and
--   presence_api.py.
-- - Roaming (backend/src/evagg/ocpi): Bindings and Profiles are charging_profiles.py; Commands,
--   Preferences and Cdrs are commands.py, charging_preferences.py and cdr.py; Partners is
--   partner_store.py and versions.py; Domain is domain.py, Locations is locations.py and
--   location_sync.py, and Wire has the models and adapters of v211_shim, v221 and v230;
--   Errors and Tariffs are errors.py and tariff_bridge.py, and Routes is router.py over all of these;
--   Administration is partner_admin.py.
-- - Driver (backend/src/evagg/driver_app and charging_auth): Rewards, Vehicles and Reservations are
--   rewards.py, vehicles.py and reservations.py; Sessions is session_start.py, autocharge.py and
--   session_history.py; QrTokens, Certificates and Starting are qr_token.py, plug_and_charge.py and
--   session_start_router.py; Tags are the tags that these make up;
--   Garage is vehicle_router.py, and Desk is rewards_router.py and reservation_router.py;
--   Journeys is route_planner.py, geo.py and route_planner_router.py.
-- - Base has what the parts share: Tests (Boolean tests), Lists, Results (a call that returns or raises,
--   and a method that changes its object), Dict (a Python dict in insertion order) and Int (Python
--   integers).
--
-- How they interact: a frame of a charger goes through Socket.receive and Handlers.handle_frame to the
-- stores of the gateway, and the end of a connection goes to Presence.handle_disconnect. Gateway.App and
-- Identity.Accounts open sessions with Gateway.RefreshTokens and Gateway.AccessTokens.
-- Commands.send_command reads the presence; Roaming.Commands and Driver.Sessions send their commands
-- through it and read the gateway's transactions, and Driver.Reservations goes through Roaming.Commands.
-- Driver.Sessions awards Driver.Rewards and reads Driver.Vehicles, as Driver.Journeys does with
-- Roaming.Locations. Billing.Sessions charges Billing.Wallet, with the method that Billing.WalletRoutes
-- stores.
--
-- How the code is translated: a class becomes a record of its state and a method a function that takes
-- the state last and returns it beside its result. A method that raises is an `Exec`, which keeps the
-- state that was reached when it raised. A handler's children named for what they prove hold the theorems,
-- and those named Examples the runs on concrete inputs. The in-memory stores are modelled; they are the
-- reference versions of the interfaces that the services use. Strings and ids that are only compared, times
-- in ticks of a clock, and values that are only carried are natural numbers; amounts that may be negative
-- are integers. Fresh ids and readings of the clock are arguments. A set or list of revoked or processed
-- keys is a list. Every loop of the code is a recursion over a list, or over the
-- attempts that are left, so that no fuel is needed and every function is total; the loop of a socket
-- is a recursion over the frames that arrive before it is closed.
--
-- Parameters, for code that is outside: the payment provider, the transport to a charger, the check of a
-- charger's credential, the roaming checker of the handlers (whose own implementation is
-- Authorization.check), the handlers of the event bus, the checks of QR codes and certificates in Sessions
-- (which Starting fills in), a driver's default payment method, and the factory of a charge record; NATS
-- and JSON for the command transport; PyJWT, the key derivation, the digests, the HMAC of the tenant header, the UUID parser, Starlette's headers and URLs; X.509, OCSP and the codec of the QR codes; the SSO
-- providers; the HTTP client of the carbon intensity; and a number type with its laws for the floating-
-- point numbers of the tariffs and the routes, with their trigonometry; and the routing client. What is
-- assumed of them is a hypothesis of the theorem that uses it. The estimate of energy and cost that a
-- stopped session is recorded with is a parameter too, since it computes with floating-point numbers.
--
-- Not modelled: the routers of the map, the carbon intensity, the usage insights, the cost report and the administration, the
-- forwarders, wiring and configuration, adapters to databases, brokers and HTTP services, the database
-- schema, cryptographic primitives, the layout of documents, the usage insights; nor the mobile app and
-- the portal. Two methods that await at the same time are not interleaved: each method is one step, but
-- for a call to a charger, whose answers arrive between its two steps.
pub mod Base
pub mod Gateway
pub mod Identity
pub mod Carbon
pub mod Fleet
pub mod Billing
pub mod Ocpp
pub mod Roaming
pub mod Driver
