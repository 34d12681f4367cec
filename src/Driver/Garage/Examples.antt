-- ===== src/Driver/Garage/Examples.antt =====
-- Driver 7 tries to delete the car of driver 8.
use evaggregator.Driver.Garage.{delete_vehicle, respond_garage, unauthorized}
use evaggregator.Driver.Vehicles.{Vehicle, VehicleStore}
use evaggregator.Gateway.AccessTokens.{
  DriverIdentity, Jwt, TokenError, TokenSettings, bearer, require_driver_identity,
}
use evaggregator.Driver.Garage.Privacy.{others_vehicles_kept}
use evaggregator.Base.{[], err, nat_eq, ok, some, true, ℕ, ◌∷◌, ◌≡◌, ◌≢◌}
use evaggregator.Base.Dict.{lookup}

abbrev jti_tokens : Jwt ℕ
jti_tokens = record {
  encode = λ c secret. c.token_id;
  decode = λ t secret now. some (record {
    subject = some t;
    tenant_id = some 1;
    issued_at = 0;
    expires_at = 9_000;
    token_id = t;
  });
}

abbrev secrets : TokenSettings
secrets = record { signing_secret = 5; access_token_ttl_seconds = 900 }

abbrev car_of_eight : Vehicle
car_of_eight = record {
  id = 4;
  driver_id = 8;
  make = 1;
  model = 2;
  connector_type = 3;
  battery_capacity_kwh = 60;
  plug_and_charge_enabled = true;
}

abbrev one_car : VehicleStore
one_car = (4, car_of_eight) ∷ []

others_vehicles_kept_example :
    ((e : TokenError)
      → require_driver_identity jti_tokens secrets (λ n. some n) (bearer 7) 100 ≡ err e
      → respond_garage jti_tokens secrets (λ n. some n) (bearer 7) 100 (delete_vehicle 4) one_car
        ≡ (unauthorized e, one_car))
    × ((i : DriverIdentity) (j : ℕ) (v : Vehicle)
        → require_driver_identity jti_tokens secrets (λ n. some n) (bearer 7) 100 ≡ ok i
        → lookup j one_car ≡ some v
        → v.driver_id ≢ i.driver_id
        → lookup j
            (respond_garage jti_tokens secrets
              (λ n. some n)
              (bearer 7)
              100
              (delete_vehicle 4)
              one_car).1
          ≡ some v)
others_vehicles_kept_example =
    others_vehicles_kept jti_tokens secrets (λ n. some n) (bearer 7) 100 (delete_vehicle 4) one_car
      tt
