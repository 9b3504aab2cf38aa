-- ===== src/Tests/Crypto.antt =====
-- Runs of src/utils/crypto.utils.ts.
use activity_tracker_api.Base.{◌≡◌, refl, true, ok}
use activity_tracker_api.Base.Strings.{split}
use activity_tracker_api.Crypto.{encrypt, decrypt, get_encryption_key}
use activity_tracker_api.Tests.Ciphers.{bit_cipher, setting}
use activity_tracker_api.Crypto.RoundTrip.{decrypt-encrypt}

encrypt-secret : encrypt bit_cipher setting true "secret" ≡ ok "01:00:secret"
unfolding encrypt get_encryption_key
encrypt-secret = refl

decrypt-encrypt_example : decrypt bit_cipher setting "01:00:secret" ≡ ok "secret"
decrypt-encrypt_example =
    decrypt-encrypt bit_cipher setting true "secret" "01:00:secret" encrypt-secret

decrypt-secret : decrypt bit_cipher setting "00:00:secret" ≡ ok "secret"
unfolding decrypt get_encryption_key split
decrypt-secret = refl
