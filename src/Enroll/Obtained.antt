-- ===== src/Enroll/Obtained.antt =====
-- The steps of `ota_fetch_enroll` of src/enroll.c up to the first write, and how each feeds the next.
use ota_fetch.Base.{Bytes}
use ota_fetch.Platform.{Platform, IsLawful, State, Cjson}
use ota_fetch.Platform.Posix.{Posix, IsPosix}
use ota_fetch.Platform.Keygen.{Keygen, IsKeygen}
use ota_fetch.Platform.Http.{Http, CjsonPrint, IsPrinting}
use ota_fetch.Config.{Config}
use ota_fetch.Manifest.Load.{c_string}
use ota_fetch.Enroll.Keys.{KeyAndCsr}
use ota_fetch.Enroll.Trimmed.{IsTokenOf}
use ota_fetch.Enroll.Issued.{IsIdentity}
use ota_fetch.Enroll.Response.{IsResponse}
use ota_fetch.Enroll.Posted.{IsRequest, IsAnswer}

module _ (P : Platform) (X : Posix P) (K : Keygen P) (N : Http P) (J : Cjson P)
    (W : CjsonPrint P J) where
  -- The certificate is that of the answer to a request for the key.
  pub record IsObtained (L : IsLawful P) (D : IsPosix X) (G : IsKeygen K) (V : IsPrinting W)
      (cfg : Config) (token_file : Bytes) (s : State P) (keys : KeyAndCsr) (cert_pem : Bytes)
      : Type 0 where
    pub token : Bytes
    pub enroll_url : Bytes
    pub request_json : Bytes
    pub response_json : Bytes
    pub is_token : IsTokenOf P L X D token_file token s
    pub is_identity : IsIdentity P K G cfg.device_id keys
    pub is_request : IsRequest P J W (c_string keys.csr_pem) cfg.device_id request_json
    pub is_answer : IsAnswer P N enroll_url cfg token request_json response_json
    pub is_response : IsResponse P J response_json cert_pem
